-- ===== src/Flow.antt =====
-- include/fdpi/flow_id.hpp: the five-tuple of a flow, its direction, and the protocols that the
-- detection tells apart.
pub mod Table
use fdpi.Base.{ℕ, Bool, true, false, ◌&&◌, ◌||◌, ◌≡◌, ◌↔◌, refl, ltb, ◌==◌, if◌then◌else◌, arith}
use fdpi.Base.Assoc.{Eq}
use fdpi.Address.{IpAddress, ip_eq, ip_gt, ip_eq_iff, ip_gt_asymm, ip_gt_total}

pub data AppProtocol : Type 0 where
  unknown bgp db_lan_sync_disc dhcp dhcpv6 dns dtls ftp http imap imf : AppProtocol
  ldap llmnr mdns nbdgm nbns ntp pop3 quic rdp rtcp rtmp smb smtp snmp ssdp ssh : AppProtocol
  srv_loc stun telnet tftp tls : AppProtocol

pub record FlowId : Type 0 where
  pub src_ip : IpAddress
  pub dst_ip : IpAddress
  pub src_port : ℕ
  pub dst_port : ℕ
  pub protocol : ℕ

-- The defaulted `operator==`.
unfoldable pub flow_eq : FlowId → FlowId → Bool
flow_eq a b =
    ip_eq a.src_ip b.src_ip
    && ip_eq a.dst_ip b.dst_ip
    && a.src_port == b.src_port
    && a.dst_port == b.dst_port
    && a.protocol == b.protocol

pub flow_eq_iff : (a b : FlowId) → (flow_eq a b ≡ true) ↔ (a ≡ b)
unfolding flow_eq
flow_eq_iff a b = (
  λ h. ground (arith, ip_eq_iff a.src_ip b.src_ip, ip_eq_iff a.dst_ip b.dst_ip),
  λ h. ground (arith, ip_eq_iff a.src_ip b.src_ip, ip_eq_iff a.dst_ip b.dst_ip),
)

instance abbrev pub flow_id_eq : Eq FlowId
flow_id_eq = record { beq = flow_eq; beq_iff = flow_eq_iff }

-- `reverseFlowId` of src/decoder.cpp: the other direction of the conversation.
unfoldable pub reverse : FlowId → FlowId
reverse id = record {
  src_ip = id.dst_ip;
  dst_ip = id.src_ip;
  src_port = id.dst_port;
  dst_port = id.src_port;
  protocol = id.protocol;
}
