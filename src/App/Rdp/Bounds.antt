-- ===== src/App/Rdp/Bounds.antt =====
-- The reads and offsets of src/protocol/rdp.cpp.
use fdpi.Base.{ℕ, ◌+◌, ◌-◌, ◌^◌, ◌≤◌, ◌<◌, ◌≡◌, not, some, length, drop, ltb, ◌==◌, arith}
use fdpi.Wire.{Bytes, be16}
use fdpi.Wire.Bounded.{
  Bounded, returns, fails, Bounded-if, Bounded-guard, Bounded-at, Bounded-be16, Bounded-copy,
  be16-Readable, Bounded-known,
}
use fdpi.Wire.Ensures.{Ends, ends_rules, ltb-eq_false}
use fdpi.App.Rdp.{Rdp, payload_size, rdp_payload, rdp_body, decode_rdp}

payload_size-fits : (n : ℕ) → 11 ≤ n → n < 65536 → payload_size n ≡ n - 11
unfolding payload_size
payload_size-fits n long short = omega arith

-- A length below the headers' wraps around.
payload_size-wraps : (n : ℕ) → n < 11 → 2 ^ 63 ≤ payload_size n
unfolding payload_size
payload_size-wraps n short = omega arith

module _ (data' : Bytes) (o : ℕ) (h : o ≤ length data') where
  rdp_payload-Bounded :
      (pos size : ℕ) (rdp : Rdp) (end : ℕ)
      → pos + size ≤ length data'
      → o ≤ end
      → end ≤ length data'
      → Bounded o (length data') (rdp_payload data' pos size rdp end)
  unfolding rdp_payload
  rdp_payload-Bounded pos size rdp end fits l u =
      Bounded-if (rdp.x224_type == 224) (λ _. Bounded-copy _ _ _ fits λ _. returns l u)
        λ _.
          Bounded-if (rdp.x224_type == 208) (λ _. Bounded-copy _ _ _ fits λ _. returns l u)
            λ _. returns l u

  rdp_body-Bounded :
      (n : ℕ)
      → 11 ≤ length (drop o data')
      → 11 ≤ n
      → n < 65536
      → o + n ≤ length data'
      → Bounded o (length data') (rdp_body data' o n)
  unfolding rdp_body
  rdp_body-Bounded n room long short fits = Bounded-at _ _ (omega arith) λ _.
      Bounded-be16 _ _ (omega arith) λ _. Bounded-be16 _ _ (omega arith) λ _.
        Bounded-at _ _ (omega arith) λ _.
          rdp_payload-Bounded (o + 11) (payload_size n) _ (o + n)
            (omega (arith, payload_size-fits n long short)) (omega arith) fits

  -- `decodeRdp` reads inside the buffer and leaves its offset inside, whatever the input, if the length
  -- that the TPKT header announces, a 16-bit number, covers the two headers, 11 bytes.
  pub decode_rdp-Bounded :
      ((n : ℕ) → be16 (drop o data') 2 ≡ some n → (11 ≤ n) × (n < 65536))
      → Bounded o (length data') (decode_rdp data' o)
  unfolding decode_rdp
  decode_rdp-Bounded announced = Bounded-guard data' o 11 h λ room fits.
      Bounded-at _ _ (omega arith) λ version.
        Bounded-known (be16 (drop o data') 2) _ (be16-Readable _ 2 (omega arith)) λ n known.
          Bounded-if (not (version == 3)) (λ _. fails (omega arith) h)
            λ _.
              Bounded-if (ltb (length data') (o + n)) (λ _. fails (omega arith) h)
                λ inside.
                  let (long, short) = announced n known in
                  rdp_body-Bounded n room long short (ground arith)

pub decode_rdp-Ends : (data' : Bytes) (o : ℕ) → Ends (length data') (decode_rdp data' o)
unfolding decode_rdp rdp_body rdp_payload
decode_rdp-Ends data' o = search (ends_rules, ltb-eq_false) depth 16
