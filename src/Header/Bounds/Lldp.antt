-- ===== src/Header/Bounds/Lldp.antt =====
-- The reads and the offset of `decodeLldp` of src/protocol/lldp.cpp.
use fdpi.Base.{ℕ, zero, suc, ◌+◌, ◌/◌, ◌%◌, ◌≤◌, ◌<◌, length, ltb, ◌==◌, arith}
use fdpi.Wire.{Bytes}
use fdpi.Wire.Bounded.{
  Bounded, returns, fails, room, Bounded-if, Bounded-guard, Bounded-weaken, Bounded-be16,
  Bounded-copy,
}
use fdpi.Header.Lldp.{Lldp, note_tlv, lldp_loop, decode_lldp}

lldp_loop-Bounded :
    (fuel : ℕ) (data' : Bytes) (hdr : Lldp) (o : ℕ)
    → o ≤ length data'
    → length data' < fuel + o
    → Bounded o (length data') (lldp_loop fuel data' hdr o)
unfolding lldp_loop
lldp_loop-Bounded zero data' hdr o h enough = absurd (omega arith)
lldp_loop-Bounded (suc fuel) data' hdr o h enough =
    Bounded-if (ltb (length data') (o + 2)) (λ _. returns (omega arith) h)
      λ fits. Bounded-be16 _ _ (omega (arith, room data' o 2 fits)) λ t.
        Bounded-if (t / 512 % 128 == 0) (λ _. returns (omega arith) (ground arith))
          λ _.
            Bounded-if (ltb (length data') (o + 2 + t % 512))
              (λ _. fails (omega arith) (ground arith))
              λ all. Bounded-copy _ _ _ (omega (arith, room data' (o + 2) (t % 512) all)) λ value.
                Bounded-weaken (omega arith) (
                  lldp_loop-Bounded fuel data' (note_tlv hdr (t / 512 % 128) value)
                    (o + 2 + t % 512) (ground arith) (omega arith))

pub decode_lldp-Bounded :
    (data' : Bytes) (o : ℕ) → o ≤ length data' → Bounded o (length data') (decode_lldp data' o)
unfolding decode_lldp
decode_lldp-Bounded data' o h =
    Bounded-guard data' o 2 h
      λ _ _. lldp_loop-Bounded (suc (length data')) data' _ o h (omega arith)
