-- ===== src/Header/Bounds.antt =====
-- The reads and the offset of the decoders of headers of a fixed size.
pub mod Ip
pub mod Tunnel
pub mod Lldp
use fdpi.Base.{ℕ, ◌≤◌, length, arith}
use fdpi.Wire.{Bytes}
use fdpi.Wire.Bounded.{
  Bounded, returns, Bounded-guard, Bounded-at, Bounded-be16, Bounded-be32, Bounded-le16,
  Bounded-copy,
}
use fdpi.Header.Ethernet.{decode_vlan, decode_ethernet}
use fdpi.Header.Arp.{decode_arp, decode_rarp}
use fdpi.Header.Transport.{decode_udp}
use fdpi.Header.Other.{decode_igmp, decode_esp, decode_homeplug}

pub decode_vlan-Bounded :
    (data' : Bytes) (o : ℕ) → o ≤ length data' → Bounded o (length data') (decode_vlan data' o)
unfolding decode_vlan
decode_vlan-Bounded data' o h = Bounded-guard data' o 4 h λ room fits.
    Bounded-be16 _ _ (omega arith)
      λ _. Bounded-be16 _ _ (omega arith) λ _. returns (omega arith) (omega arith)

pub decode_ethernet-Bounded :
    (data' : Bytes) (o : ℕ) → o ≤ length data' → Bounded o (length data') (decode_ethernet data' o)
unfolding decode_ethernet
decode_ethernet-Bounded data' o h = Bounded-guard data' o 14 h λ room fits.
    Bounded-copy _ _ _ (omega arith) λ _.
      Bounded-copy _ _ _ (omega arith)
        λ _. Bounded-be16 _ _ (omega arith) λ _. returns (omega arith) (omega arith)

pub decode_udp-Bounded :
    (data' : Bytes) (o : ℕ) → o ≤ length data' → Bounded o (length data') (decode_udp data' o)
unfolding decode_udp
decode_udp-Bounded data' o h = Bounded-guard data' o 8 h λ room fits.
    Bounded-be16 _ _ (omega arith) λ _. Bounded-be16 _ _ (omega arith) λ _.
      Bounded-be16 _ _ (omega arith)
        λ _. Bounded-be16 _ _ (omega arith) λ _. returns (omega arith) (omega arith)

pub decode_igmp-Bounded :
    (data' : Bytes) (o : ℕ) → o ≤ length data' → Bounded o (length data') (decode_igmp data' o)
unfolding decode_igmp
decode_igmp-Bounded data' o h = Bounded-guard data' o 8 h λ room fits.
    Bounded-at _ _ (omega arith) λ _. Bounded-at _ _ (omega arith) λ _.
      Bounded-be16 _ _ (omega arith)
        λ _. Bounded-copy _ _ _ (omega arith) λ _. returns (omega arith) (omega arith)

pub decode_esp-Bounded :
    (data' : Bytes) (o : ℕ) → o ≤ length data' → Bounded o (length data') (decode_esp data' o)
unfolding decode_esp
decode_esp-Bounded data' o h = Bounded-guard data' o 8 h λ room fits.
    Bounded-be32 _ _ (omega arith)
      λ _. Bounded-be32 _ _ (omega arith) λ _. returns (omega arith) (omega arith)

pub decode_homeplug-Bounded :
    (data' : Bytes) (o : ℕ) → o ≤ length data' → Bounded o (length data') (decode_homeplug data' o)
unfolding decode_homeplug
decode_homeplug-Bounded data' o h = Bounded-guard data' o 5 h λ room fits.
    Bounded-at _ _ (omega arith)
      λ _. Bounded-le16 _ _ (omega arith) λ _. returns (omega arith) (omega arith)

pub decode_arp-Bounded :
    (data' : Bytes) (o : ℕ) → o ≤ length data' → Bounded o (length data') (decode_arp data' o)
unfolding decode_arp
decode_arp-Bounded data' o h = Bounded-guard data' o 28 h λ room fits.
    Bounded-be16 _ _ (omega arith) λ _. Bounded-be16 _ _ (omega arith) λ _.
      Bounded-at _ _ (omega arith) λ _. Bounded-at _ _ (omega arith) λ _.
        Bounded-be16 _ _ (omega arith) λ _. Bounded-copy _ _ _ (omega arith) λ _.
          Bounded-copy _ _ _ (omega arith) λ _.
            Bounded-copy _ _ _ (omega arith)
              λ _. Bounded-copy _ _ _ (omega arith) λ _. returns (omega arith) (omega arith)

pub decode_rarp-Bounded :
    (data' : Bytes) (o : ℕ) → o ≤ length data' → Bounded o (length data') (decode_rarp data' o)
unfolding decode_rarp
decode_rarp-Bounded data' o h = Bounded-guard data' o 28 h λ room fits.
    Bounded-be16 _ _ (omega arith) λ _. Bounded-be16 _ _ (omega arith) λ _.
      Bounded-at _ _ (omega arith) λ _. Bounded-at _ _ (omega arith) λ _.
        Bounded-be16 _ _ (omega arith) λ _. Bounded-copy _ _ _ (omega arith) λ _.
          Bounded-copy _ _ _ (omega arith) λ _.
            Bounded-copy _ _ _ (omega arith)
              λ _. Bounded-copy _ _ _ (omega arith) λ _. returns (omega arith) (omega arith)
