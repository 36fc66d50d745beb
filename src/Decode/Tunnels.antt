-- ===== src/Decode/Tunnels.antt =====
-- The tunnels over UDP in `PacketDecoder::decode` of src/decoder.cpp, VxLAN and GTP-U. A header
-- inside that cannot be decoded is passed over, and decoding goes on where it stopped.
use fdpi.Base.{
  ℕ, ◌+◌, ◌/◌, ◌%◌, Bool, false, ◌&&◌, Option, none, some, length, drop, ltb, ◌==◌, if◌then◌else◌,
}
use fdpi.Wire.{Bytes, Outcome, ok, ◌>>=◌, or_none, and_then, at}
use fdpi.Header.Ethernet.{VlanTag, decode_ethernet, decode_vlan}
use fdpi.Header.Ipv4.{decode_ipv4}
use fdpi.Header.Ipv6.{decode_ipv6}
use fdpi.Header.Tunnel.{decode_gtp}
use fdpi.Decode.{Layer3, ipv4, ipv6, Layer4, udp, is_vlan}
use fdpi.Decode.Transport.{inner_transport}

unfoldable pub is_udp_to : ℕ → Layer4 → Bool
is_udp_to port (udp h) = h.dst_port == port
is_udp_to port _ = false

-- The layers that a tunnel may set anew.
pub record Upper : Type 0 where
  pub layer3 : Layer3
  pub layer4 : Layer4

unfoldable pub inner_ipv4 : Upper → Bytes → ℕ → Outcome Upper
inner_ipv4 upper data' offset = or_none (decode_ipv4 data' offset) λ h o. elim h [
  | none ↦ ok upper o
  | some ip ↦
      and_then (inner_transport ip.protocol upper.layer4 data' o)
        λ l o'. ok (record { layer3 = ipv4 ip; layer4 = l }) o'
]

unfoldable pub inner_ipv6 : Upper → Bytes → ℕ → Outcome Upper
inner_ipv6 upper data' offset = or_none (decode_ipv6 data' offset) λ h o. elim h [
  | none ↦ ok upper o
  | some ip ↦
      and_then (inner_transport ip.next_header upper.layer4 data' o)
        λ l o'. ok (record { layer3 = ipv6 ip; layer4 = l }) o'
]

unfoldable pub inner_network : ℕ → Upper → Bytes → ℕ → Outcome Upper
inner_network ether_type upper data' offset =
    if ether_type == 2048
    then inner_ipv4 upper data' offset
    else if ether_type == 34525
    then inner_ipv6 upper data' offset
    else ok upper offset

abbrev pub type_of : ℕ → Option VlanTag → ℕ
type_of ether_type none = ether_type
type_of ether_type (some tag) = tag.ether_type

unfoldable pub inner_vlan : ℕ → Upper → Bytes → ℕ → Outcome Upper
inner_vlan ether_type upper data' offset =
    if is_vlan ether_type
    then (or_none (decode_vlan data' offset)
        λ tag o. inner_network (type_of ether_type tag) upper data' o)
    else inner_network ether_type upper data' offset

unfoldable pub vxlan : Upper → Bytes → ℕ → Outcome Upper
vxlan upper data' offset =
    if is_udp_to 4789 upper.layer4 && ltb (offset + 8) (length data')
    then (or_none (decode_ethernet data' (offset + 8))
        λ eth o. elim eth [ none ↦ ok upper o | some e ↦ inner_vlan e.ether_type upper data' o ])
    else ok upper offset

unfoldable pub gtp_inner : Upper → Bytes → ℕ → Outcome Upper
gtp_inner upper data' offset =
    if ltb offset (length data')
    then (do
      b ← at (drop offset data') 0
      if b / 16 % 16 == 4
          then inner_ipv4 upper data' offset
          else if b / 16 % 16 == 6
          then inner_ipv6 upper data' offset
          else ok upper offset)
    else ok upper offset

unfoldable pub gtp_u : Upper → Bytes → ℕ → Outcome Upper
gtp_u upper data' offset =
    if is_udp_to 2152 upper.layer4 && ltb offset (length data')
    then (or_none (decode_gtp data' offset)
        λ gtp o. elim gtp [ none ↦ ok upper o | some _ ↦ gtp_inner upper data' o ])
    else ok upper offset
