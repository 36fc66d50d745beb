-- ===== src/Detect/Rules.antt =====
-- `detectSingle` of src/detection.cpp: the tests of ports and payload, in their order.
use fdpi.Base.{
  ◌/◌, ◌%◌, ◌&&◌, ◌||◌, Option, none, some, [], ◌∷◌, ◌++◌, length, take, leb, ◌==◌, if◌then◌else◌,
}
use fdpi.Wire.{Bytes, at, be16, be32}
use fdpi.Flow.{AppProtocol}
use fdpi.Detect.Words.{
  starts_with_any, http_starts, http_starts_anywhere, ftp_starts, ssh_starts, smtp_starts,
  pop3_starts, imap_starts, ssdp_starts,
}
use fdpi.Detect.Payload.{
  Layer4, is_tcp, is_udp, on_port, when, reading, both, between, marker, is_smb, Rules,
}

-- MDNS, LLMNR, DNS and HTTP on their ports.
unfoldable pub name_rules : Layer4 → Bytes → Rules
name_rules l p =
    (some (is_udp l && on_port 5353 l && leb 12 (length p)), AppProtocol.mdns)
    ∷ (some (is_udp l && on_port 5355 l && leb 12 (length p)), AppProtocol.llmnr)
    ∷ (some (on_port 53 l && leb 12 (length p)), AppProtocol.dns)
    ∷ (
      some (
          (on_port 80 l || on_port 8080 l)
          && leb 4 (length p)
          && starts_with_any (take 16 p) http_starts),
      AppProtocol.http,
    )
    ∷ []

-- STUN, DTLS and RTCP, which share one flow, by the first byte.
unfoldable pub multiplexed_rules : Layer4 → Bytes → Rules
multiplexed_rules l p =
    (
      when (is_udp l && leb 20 (length p)) (
          both (reading (at p 0) (λ a. a / 64 % 4 == 0))
            (reading (be32 p 4) (λ a. a == 554869826))),
      AppProtocol.stun,
    )
    ∷ (
      when (is_udp l && leb 13 (length p)) (
          both (reading (at p 0) (between 20 63))
            (reading (be16 p 1) (λ v. v == 65277 || v == 65279 || v == 65276))),
      AppProtocol.dtls,
    )
    ∷ (
      when (is_udp l && leb 8 (length p))
          (both (reading (at p 0) (between 128 191)) (reading (at p 1) (between 200 211))),
      AppProtocol.rtcp,
    )
    ∷ []

-- QUIC and TLS on port 443, and FTP.
unfoldable pub secure_rules : Layer4 → Bytes → Rules
secure_rules l p =
    (
      when (is_udp l && on_port 443 l && leb 1 (length p))
          (reading (at p 0) (λ a. a / 128 % 2 == 1)),
      AppProtocol.quic,
    )
    ∷ (
      when (is_tcp l && on_port 443 l && leb 5 (length p)) (reading (at p 0) (between 20 23)),
      AppProtocol.tls,
    )
    ∷ (
      when (is_tcp l && on_port 21 l && leb 4 (length p)) (
          both (reading (at p 0) (between 49 53)) (
            both (reading (at p 1) (between 48 57)) (
              both (reading (at p 2) (between 48 57))
                (reading (at p 3) (λ a. a == 32 || a == 45))))),
      AppProtocol.ftp,
    )
    ∷ (
      some (is_tcp l && on_port 21 l && leb 4 (length p) && starts_with_any (take 16 p) ftp_starts),
      AppProtocol.ftp,
    )
    ∷ []

-- The other protocols of text over TCP.
unfoldable pub text_rules : Layer4 → Bytes → Rules
text_rules l p =
    (
      some (is_tcp l && on_port 22 l && leb 4 (length p) && starts_with_any (take 8 p) ssh_starts),
      AppProtocol.ssh,
    )
    ∷ (some (is_tcp l && on_port 23 l && leb 1 (length p)), AppProtocol.telnet)
    ∷ (
      some (
          is_tcp l
          && (on_port 25 l || on_port 587 l)
          && leb 4 (length p)
          && starts_with_any (take 16 p) smtp_starts),
      AppProtocol.smtp,
    )
    ∷ (
      some (
          is_tcp l && on_port 110 l && leb 3 (length p) && starts_with_any (take 16 p) pop3_starts),
      AppProtocol.pop3,
    )
    ∷ (
      some (
          is_tcp l && on_port 143 l && leb 4 (length p) && starts_with_any (take 16 p) imap_starts),
      AppProtocol.imap,
    )
    ∷ []

-- BGP, RDP, LDAP, SSDP and SrvLoc.
unfoldable pub binary_rules : Layer4 → Bytes → Rules
binary_rules l p =
    (when (is_tcp l && on_port 179 l && leb 19 (length p)) (marker 16 p 0), AppProtocol.bgp)
    ∷ (
      when (is_tcp l && on_port 3389 l && leb 7 (length p)) (reading (be16 p 0) (λ a. a == 768)),
      AppProtocol.rdp,
    )
    ∷ (
      when (is_tcp l && on_port 389 l && leb 2 (length p)) (reading (at p 0) (λ a. a == 48)),
      AppProtocol.ldap,
    )
    ∷ (
      some (
          is_udp l
          && on_port 1900 l
          && leb 4 (length p)
          && starts_with_any (take 16 p) ssdp_starts),
      AppProtocol.ssdp,
    )
    ∷ (
      when (on_port 427 l && leb 5 (length p)) (reading (at p 0) (λ a. a == 1 || a == 2)),
      AppProtocol.srv_loc,
    )
    ∷ []

-- The NetBIOS services, RTMP and Dropbox.
unfoldable pub service_rules : Layer4 → Bytes → Rules
service_rules l p =
    (some (is_udp l && on_port 137 l && leb 12 (length p)), AppProtocol.nbns)
    ∷ (some (is_udp l && on_port 138 l && leb 10 (length p)), AppProtocol.nbdgm)
    ∷ (when (is_tcp l && on_port 445 l && leb 4 (length p)) (is_smb p 0), AppProtocol.smb)
    ∷ (when (is_tcp l && on_port 139 l && leb 8 (length p)) (is_smb p 4), AppProtocol.smb)
    ∷ (some (is_tcp l && on_port 1935 l && leb 1 (length p)), AppProtocol.rtmp)
    ∷ (
      when (is_udp l && on_port 17500 l && leb 2 (length p)) (reading (at p 0) (λ a. a == 123)),
      AppProtocol.db_lan_sync_disc,
    )
    ∷ []

-- NTP, DHCP, TFTP and SNMP.
unfoldable pub management_rules : Layer4 → Bytes → Rules
management_rules l p =
    (
      when (is_udp l && on_port 123 l && leb 48 (length p))
          (reading (at p 0) (λ a. (a / 8 % 8 == 3 || a / 8 % 8 == 4) && between 1 5 (a % 8))),
      AppProtocol.ntp,
    )
    ∷ (
      when (is_udp l && (on_port 67 l || on_port 68 l) && leb 240 (length p))
          (reading (be32 p 236) (λ a. a == 1669485411)),
      AppProtocol.dhcp,
    )
    ∷ (
      when (is_udp l && (on_port 546 l || on_port 547 l) && leb 4 (length p))
          (reading (at p 0) (between 1 13)),
      AppProtocol.dhcpv6,
    )
    ∷ (
      when (is_udp l && on_port 69 l && leb 4 (length p)) (reading (be16 p 0) (between 1 5)),
      AppProtocol.tftp,
    )
    ∷ (
      when (is_udp l && (on_port 161 l || on_port 162 l) && leb 2 (length p))
          (reading (at p 0) (λ a. a == 48)),
      AppProtocol.snmp,
    )
    ∷ []

-- The tests of the payload on any port.
unfoldable pub portless_rules : Layer4 → Bytes → Rules
portless_rules l p =
    (
      when (leb 5 (length p))
          (both (reading (at p 0) (between 20 23)) (reading (be16 p 1) (between 768 771))),
      AppProtocol.tls,
    )
    ∷ (
      some (leb 4 (length p) && starts_with_any (take 16 p) http_starts_anywhere),
      AppProtocol.http,
    )
    ∷ (
      when (is_udp l && leb 5 (length p)) (
          both (reading (at p 0) (λ a. a / 128 % 2 == 1))
            (reading (be32 p 1) (λ v. v == 1 || v == 1798521807 || v == 4278190080))),
      AppProtocol.quic,
    )
    ∷ (some (leb 4 (length p) && starts_with_any (take 8 p) ssh_starts), AppProtocol.ssh)
    ∷ (
      when (leb 19 (length p)) (both (marker 16 p 0) (reading (at p 18) (between 1 5))),
      AppProtocol.bgp,
    )
    ∷ []

unfoldable pub first_match : Rules → Option AppProtocol
first_match [] = some AppProtocol.unknown
first_match ((test, protocol) ∷ rules) = elim test [
  | none ↦ none
  | some matches ↦ if matches then some protocol else first_match rules
]

-- `none` if a test reads outside the payload.
unfoldable pub detect_single : Layer4 → Bytes → Option AppProtocol
detect_single l p = first_match (
    name_rules l p
    ++ multiplexed_rules l p
    ++ secure_rules l p
    ++ text_rules l p
    ++ binary_rules l p
    ++ service_rules l p
    ++ management_rules l p
    ++ portless_rules l p)
