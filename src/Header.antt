-- ===== src/Header.antt =====
-- The decoders of the fixed headers, src/protocol/*.cpp, each with the structure that it fills
-- (include/fdpi/protocol/*.hpp).
pub mod Ethernet
pub mod Arp
pub mod Ipv4
pub mod Ipv6
pub mod Transport
pub mod Icmp
pub mod Tunnel
pub mod Lldp
pub mod Other
pub mod Bounds
pub mod Encode
