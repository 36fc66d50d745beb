-- ===== src/Header/Ethernet.antt =====
-- src/protocol/ethernet.cpp: the Ethernet header and the VLAN tag.
use fdpi.Base.{ℕ, ◌+◌, ◌/◌, ◌%◌, length, drop, ltb, if◌then◌else◌}
use fdpi.Wire.{Bytes, Outcome, ok, err, truncated_header, ◌>>=◌, be16, copy}

pub record Ethernet : Type 0 where
  pub dst : Bytes
  pub src : Bytes
  pub ether_type : ℕ

pub record VlanTag : Type 0 where
  pub tci : ℕ
  pub ether_type : ℕ

unfoldable pub vlan_id : VlanTag → ℕ
vlan_id t = t.tci % 4096

unfoldable pub priority : VlanTag → ℕ
priority t = t.tci / 8192 % 8

unfoldable pub decode_ethernet : Bytes → ℕ → Outcome Ethernet
decode_ethernet data' offset =
    if ltb (length data') (offset + 14) then err truncated_header offset else do
      dst ← copy (drop offset data') 0 6
      src ← copy (drop offset data') 6 6
      ether_type ← be16 (drop offset data') 12
      ok (record { dst = dst; src = src; ether_type = ether_type }) (offset + 14)

unfoldable pub decode_vlan : Bytes → ℕ → Outcome VlanTag
decode_vlan data' offset =
    if ltb (length data') (offset + 4) then err truncated_header offset else do
      tci ← be16 (drop offset data') 0
      ether_type ← be16 (drop offset data') 2
      ok (record { tci = tci; ether_type = ether_type }) (offset + 4)
