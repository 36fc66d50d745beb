-- ===== src/Decode/Applications.antt =====
-- `decodeL7` of src/decoder.cpp. SMTP and POP3 keep states of their flows. A call that reads outside the
-- bytes is `none`, and so is one whose loop over a DNS name has not ended when its fuel is used up.
pub mod Offsets
pub mod Valid
use fdpi.Base.{
  ℕ, ◌+◌, Bool, true, false, ◌&&◌, ◌||◌, Option, none, some, length, leb, ◌==◌, if◌then◌else◌, ltb,
}
use fdpi.Wire.{Bytes, Outcome, ok, err, fault, be16}
use fdpi.Flow.{AppProtocol, FlowId}
use fdpi.Decode.{Layer4, tcp}
use fdpi.App.Dns.{Dns, decode_dns}
use fdpi.App.Mail.{Smtp, Pop3, SmtpStates, Pop3States, smtp_l7, pop3_l7}
use fdpi.App.Http.{Http, Ssdp, decode_ssdp}
use fdpi.App.Ocsp.{Ocsp, decode_http_ocsp}
use fdpi.App.Netbios.{Nbns, decode_nbns, Nbdgm, decode_nbdgm}
use fdpi.App.Mime.{Imf, decode_imf}
use fdpi.App.LanSync.{DbLanSyncDisc, decode_db_lan_sync_disc}
use fdpi.App.Tls.{Tls, decode_tls_records}
use fdpi.App.Frames.{Quic, decode_quic, Smb, decode_smb, SrvLoc, decode_srvloc}
use fdpi.App.Rtmp.{Rtmp, decode_rtmp}
use fdpi.App.Chat.{Ftp, decode_ftp, Imap, decode_imap, Ssh, decode_ssh, Telnet, decode_telnet}
use fdpi.App.Dhcp.{Dhcp, decode_dhcp, Dhcpv6, decode_dhcpv6}
use fdpi.App.Asn1.{Snmp, decode_snmp, Ldap, decode_ldap}
use fdpi.App.Rdp.{Rdp, decode_rdp}
use fdpi.App.Records.{Ntp, decode_ntp, Rtcp, decode_rtcp, Dtls, decode_dtls, Bgp, decode_bgp}
use fdpi.App.Stun.{Stun, decode_stun}
use fdpi.App.Tftp.{Tftp, decode_tftp}

-- `Packet::layer7`
pub data Message : Type 0 where
  http : Http × Option Ocsp → Message
  tls : Tls → Message
  quic : Quic → Message
  ftp : Ftp → Message
  ssh : Ssh → Message
  dhcp : Dhcp → Message
  dhcpv6 : Dhcpv6 → Message
  smtp : Smtp → Message
  pop3 : Pop3 → Message
  imap : Imap → Message
  snmp : Snmp → Message
  rdp : Rdp → Message
  bgp : Bgp → Message
  ntp : Ntp → Message
  ldap : Ldap → Message
  ssdp : Ssdp → Message
  srv_loc : SrvLoc → Message
  smb : Smb → Message
  rtmp : Rtmp → Message
  stun : Stun → Message
  telnet : Telnet → Message
  tftp : Tftp → Message
  dtls : Dtls → Message
  rtcp : Rtcp → Message
  nbns : Nbns → Message
  nbdgm : Nbdgm → Message
  imf : Imf → Message
  db_lan_sync_disc : DbLanSyncDisc → Message
  dns : Dns → Message

pub record L7States : Type 0 where
  pub smtp_states : SmtpStates
  pub pop3_states : Pop3States

unfoldable pub as_message {ℓ} : {A : Type ℓ} → (A → Message) → Option (A × ℕ) → Option (Message × ℕ)
as_message f none = none
as_message f (some (a, offset)) = some (f a, offset)

-- `if (auto result = decode…(data, offset))`: an error gives no message.
unfoldable pub decoded_as {ℓ} :
    {A : Type ℓ} → L7States → (A → Message) → Outcome A → Option (L7States × Option (Message × ℕ))
decoded_as states f (ok a o) = some (states, some (f a, o))
decoded_as states f (err _ _) = some (states, none)
decoded_as states f fault = none

-- Over TCP a message of DNS stands behind its length, and has to be there in full.
unfoldable pub dns_offset : Layer4 → Bytes → Option ℕ
dns_offset (tcp _) data' = elim (be16 data' 0) [
  | none ↦ none
  | some dns_len ↦ if ltb (length data') (2 + dns_len) then none else some 2
]
dns_offset _ data' = some 0

unfoldable pub decode_dns_message :
    ℕ → L7States → Bytes → Option ℕ → Option (L7States × Option (Message × ℕ))
decode_dns_message fuel states data' none = some (states, none)
decode_dns_message fuel states data' (some offset) = elim (decode_dns fuel data' offset) [
  | none ↦ none
  | some result ↦ decoded_as states dns result
]

-- SMB over NetBIOS sessions, TCP port 139, stands behind a header of four bytes.
unfoldable pub smb_offset : Layer4 → Bytes → ℕ
smb_offset (tcp h) data' =
    if (h.src_port == 139 || h.dst_port == 139) && leb 4 (length data') then 4 else 0
smb_offset _ data' = 0

-- `decodeL7` at the start of the bytes.
unfoldable pub decode_l7 :
    ℕ → L7States → Layer4 → FlowId → AppProtocol → Bytes → Option (L7States × Option (Message × ℕ))
decode_l7 fuel states transport id AppProtocol.http data' =
    decoded_as states http (decode_http_ocsp data' 0)
decode_l7 fuel states transport id AppProtocol.tls data' =
    decoded_as states tls (decode_tls_records data' 0)
decode_l7 fuel states transport id AppProtocol.quic data' =
    decoded_as states quic (decode_quic data' 0)
decode_l7 fuel states transport id AppProtocol.ftp data' =
    decoded_as states ftp (decode_ftp data' 0)
decode_l7 fuel states transport id AppProtocol.ssh data' =
    decoded_as states ssh (decode_ssh data' 0)
decode_l7 fuel states transport id AppProtocol.dhcp data' =
    decoded_as states dhcp (decode_dhcp data' 0)
decode_l7 fuel states transport id AppProtocol.dhcpv6 data' =
    decoded_as states dhcpv6 (decode_dhcpv6 data' 0)
decode_l7 fuel states transport id AppProtocol.imap data' =
    decoded_as states imap (decode_imap data' 0)
decode_l7 fuel states transport id AppProtocol.snmp data' =
    decoded_as states snmp (decode_snmp data' 0)
decode_l7 fuel states transport id AppProtocol.rdp data' =
    decoded_as states rdp (decode_rdp data' 0)
decode_l7 fuel states transport id AppProtocol.bgp data' =
    decoded_as states bgp (decode_bgp data' 0)
decode_l7 fuel states transport id AppProtocol.ntp data' =
    decoded_as states ntp (decode_ntp data' 0)
decode_l7 fuel states transport id AppProtocol.ldap data' =
    decoded_as states ldap (decode_ldap data' 0)
decode_l7 fuel states transport id AppProtocol.ssdp data' =
    decoded_as states ssdp (decode_ssdp data' 0)
decode_l7 fuel states transport id AppProtocol.srv_loc data' =
    decoded_as states srv_loc (decode_srvloc data' 0)
decode_l7 fuel states transport id AppProtocol.smb data' =
    decoded_as states smb (decode_smb data' (smb_offset transport data'))
decode_l7 fuel states transport id AppProtocol.rtmp data' =
    decoded_as states rtmp (decode_rtmp data' 0)
decode_l7 fuel states transport id AppProtocol.stun data' =
    decoded_as states stun (decode_stun data' 0)
decode_l7 fuel states transport id AppProtocol.telnet data' =
    decoded_as states telnet (decode_telnet data' 0)
decode_l7 fuel states transport id AppProtocol.tftp data' =
    decoded_as states tftp (decode_tftp data' 0)
decode_l7 fuel states transport id AppProtocol.dtls data' =
    decoded_as states dtls (decode_dtls data' 0)
decode_l7 fuel states transport id AppProtocol.rtcp data' =
    decoded_as states rtcp (decode_rtcp data' 0)
decode_l7 fuel states transport id AppProtocol.nbns data' =
    decoded_as states nbns (decode_nbns data' 0)
decode_l7 fuel states transport id AppProtocol.nbdgm data' =
    decoded_as states nbdgm (decode_nbdgm data' 0)
decode_l7 fuel states transport id AppProtocol.imf data' =
    decoded_as states imf (decode_imf data' 0)
decode_l7 fuel states transport id AppProtocol.db_lan_sync_disc data' =
    decoded_as states db_lan_sync_disc (decode_db_lan_sync_disc data' 0)
decode_l7 fuel states transport id AppProtocol.smtp data' =
    let (s, r) = smtp_l7 states.smtp_states id data' in
    some (record states { smtp_states = s }, as_message smtp r)
decode_l7 fuel states transport id AppProtocol.pop3 data' =
    let (s, r) = pop3_l7 states.pop3_states id data' in
    some (record states { pop3_states = s }, as_message pop3 r)
decode_l7 fuel states transport id AppProtocol.dns data' =
    decode_dns_message fuel states data' (dns_offset transport data')
decode_l7 fuel states transport id AppProtocol.mdns data' =
    decode_dns_message fuel states data' (some 0)
decode_l7 fuel states transport id AppProtocol.llmnr data' =
    decode_dns_message fuel states data' (some 0)
decode_l7 fuel states transport id AppProtocol.unknown data' = some (states, none)
