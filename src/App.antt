-- ===== src/App.antt =====
-- Decoders of application protocols, src/protocol/.
pub mod Asn1
pub mod Chat
pub mod Dhcp
pub mod Dns
pub mod Frames
pub mod Fuel
pub mod Http
pub mod LanSync
pub mod Line
pub mod Mail
pub mod Mime
pub mod Netbios
pub mod Ocsp
pub mod Rdp
pub mod Records
pub mod Rtmp
pub mod Stun
pub mod Tftp
pub mod Tls
