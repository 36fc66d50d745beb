-- ===== src/Decode.antt =====
-- src/decoder.cpp: a packet through its layers, and include/fdpi/packet.hpp, what is found of it.
-- The children follow the source from the link layer upwards.
pub mod Link
pub mod Network
pub mod Transport
pub mod Tunnels
pub mod Layers
pub mod Session
pub mod Applications
pub mod Bounds
use fdpi.Base.{ℕ, ◌==◌, ◌||◌, Bool, true, false, Option, none, some, List, [], ◌∷◌}
use fdpi.Wire.{Bytes}
use fdpi.Address.{IpAddress, v4, v6}
use fdpi.Flow.{FlowId}
use fdpi.Header.Ethernet.{Ethernet, VlanTag}
use fdpi.Header.Arp.{Arp, Rarp}
use fdpi.Header.Ipv4.{Ipv4}
use fdpi.Header.Ipv6.{Ipv6}
use fdpi.Header.Lldp.{Lldp}
use fdpi.Header.Other.{Igmp, Esp, HomePlug, Eapol}
use fdpi.Header.Icmp.{Icmp}
use fdpi.Header.Transport.{Tcp, Udp}
use fdpi.Link.Llc.{Wifi}

-- `Packet::layer3`
pub data Layer3 : Type 0 where
  no_layer3 : Layer3
  ipv4 : Ipv4 → Layer3
  ipv6 : Ipv6 → Layer3
  arp : Arp → Layer3
  rarp : Rarp → Layer3
  eapol : Eapol → Layer3
  lldp : Lldp → Layer3
  homeplug : HomePlug → Layer3

-- `Packet::layer4`
pub data Layer4 : Type 0 where
  no_layer4 : Layer4
  tcp : Tcp → Layer4
  udp : Udp → Layer4
  icmp : Icmp → Layer4
  icmpv6 : Icmp → Layer4
  igmp : Igmp → Layer4
  esp : Esp → Layer4

-- What the link layer sets of a packet, and the type of what it carries.
pub record Linked : Type 0 where
  pub ethernet : Option Ethernet
  pub wifi : Option Wifi
  pub vlan : Option VlanTag
  pub ether_type : ℕ

abbrev pub zero_ip : IpAddress
zero_ip = v4 (0 ∷ 0 ∷ 0 ∷ 0 ∷ [])

unfoldable pub with_addresses : FlowId → Layer3 → FlowId
with_addresses id (ipv4 h) = record id {
  src_ip = v4 h.src_ip;
  dst_ip = v4 h.dst_ip;
  protocol = h.protocol;
}
with_addresses id (ipv6 h) = record id {
  src_ip = v6 h.src_ip;
  dst_ip = v6 h.dst_ip;
  protocol = h.next_header;
}
with_addresses id _ = id

unfoldable pub with_ports : FlowId → Layer4 → FlowId
with_ports id (tcp h) = record id { src_port = h.src_port; dst_port = h.dst_port }
with_ports id (udp h) = record id { src_port = h.src_port; dst_port = h.dst_port }
with_ports id _ = id

-- `buildFlowId`
unfoldable pub build_flow_id : Layer3 → Layer4 → FlowId
build_flow_id layer3 layer4 =
    with_ports
      (with_addresses
        (record { src_ip = zero_ip; dst_ip = zero_ip; src_port = 0; dst_port = 0; protocol = 0 })
        layer3)
      layer4

abbrev pub is_vlan : ℕ → Bool
is_vlan ether_type = ether_type == 33024 || ether_type == 34984
