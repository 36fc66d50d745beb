-- ===== src/App/Tftp/Bounds.antt =====
-- The reads and offsets of src/protocol/tftp.cpp.
use fdpi.App.Tftp.{
  List, read_null_terminated, tftp_options, tftp_request, tftp_data, tftp_ack, tftp_error,
  decode_tftp,
}
use fdpi.Base.{
  ℕ, zero, suc, ◌+◌, ◌≤◌, ◌||◌, [], ◌∷◌, length, drop, length-drop, ltb, ◌==◌, arith, if-elim,
}
use fdpi.Wire.{Bytes}
use fdpi.Wire.Bounded.{Bounded, returns, fails, Bounded-if, Bounded-guard, Bounded-be16}

-- A text takes no more than there is.
read_null_terminated-end :
    (s : Bytes) (pos : ℕ)
    → (pos ≤ (read_null_terminated s pos).1) × ((read_null_terminated s pos).1 ≤ pos + length s)
unfolding read_null_terminated
read_null_terminated-end [] pos = (omega arith, omega arith)
read_null_terminated-end (b ∷ s) pos =
    let h = read_null_terminated-end s (pos + 1) in
    if-elim {A = Bytes × ℕ} (λ r. (pos ≤ r.1) × (r.1 ≤ pos + suc (length s))) (b == 0)
      (λ _. (omega arith, omega arith)) λ _. (omega (arith, h.0), omega (arith, h.1))

module _ (data' : Bytes) where
  text-end :
      (pos : ℕ)
      → pos ≤ length data'
      → (pos ≤ (read_null_terminated (drop pos data') pos).1)
        × ((read_null_terminated (drop pos data') pos).1 ≤ length data')
  text-end pos h =
      let ends = read_null_terminated-end (drop pos data') pos in
      (ends.0, omega (arith, ends.1, length-drop pos data'))

  tftp_options-end :
      (fuel pos : ℕ)
      → pos ≤ length data'
      → (pos ≤ (tftp_options fuel data' pos).1) × ((tftp_options fuel data' pos).1 ≤ length data')
  unfolding tftp_options
  tftp_options-end zero pos h = (omega arith, h)
  tftp_options-end (suc fuel) pos h =
      let one = text-end pos h in
      let two = text-end _ (one.1) in
      let rest = tftp_options-end fuel _ (two.1) in
      if-elim {A = List (Bytes × Bytes) × ℕ} (λ r. (pos ≤ r.1) × (r.1 ≤ length data'))
        (ltb pos (length data'))
        (λ _.
          if-elim {A = List (Bytes × Bytes) × ℕ} (λ r. (pos ≤ r.1) × (r.1 ≤ length data')) _
            (λ _. one) λ _. (omega (arith, one.0, two.0, rest.0), rest.1))
        λ _. (omega arith, h)

  tftp_request-Bounded :
      (opcode offset pos : ℕ)
      → offset ≤ pos
      → pos ≤ length data'
      → Bounded offset (length data') (tftp_request opcode data' pos)
  unfolding tftp_request
  tftp_request-Bounded opcode offset pos l h =
      let one = text-end pos h in
      let two = text-end _ (one.1) in
      let rest = tftp_options-end (suc (length data')) _ (two.1) in
      returns (omega (arith, one.0, two.0, rest.0)) (rest.1)

pub decode_tftp-Bounded :
    (data' : Bytes) (o : ℕ) → o ≤ length data' → Bounded o (length data') (decode_tftp data' o)
unfolding decode_tftp tftp_data tftp_ack tftp_error
decode_tftp-Bounded data' o h = Bounded-guard data' o 2 h λ _ fits.
    Bounded-be16 data' o fits λ opcode.
      Bounded-if (opcode == 1 || opcode == 2)
        (λ _. tftp_request-Bounded data' opcode o (o + 2) (omega arith) fits)
        λ _.
          Bounded-if (opcode == 3)
            (λ _.
              Bounded-if (ltb (length data') (o + 2 + 2)) (λ _. fails (omega arith) h)
                λ more. Bounded-be16 data' (o + 2) (ground arith) λ _. returns h (omega arith))
            λ _.
              Bounded-if (opcode == 4)
                (λ _.
                  Bounded-if (ltb (length data') (o + 2 + 2)) (λ _. fails (omega arith) h)
                    λ more.
                      Bounded-be16 data' (o + 2) (ground arith)
                        λ _. returns (omega arith) (ground arith))
                λ _.
                  Bounded-if (opcode == 5)
                    (λ _.
                      Bounded-if (ltb (length data') (o + 2 + 2)) (λ _. fails (omega arith) h)
                        λ more.
                          let text = text-end data' (o + 2 + 2) (ground arith) in
                          Bounded-be16 data' (o + 2) (ground arith)
                            λ _. returns (omega (arith, text.0)) (text.1))
                    λ _. fails (omega arith) h
