-- ===== src/Decode/Bounds/Captured.antt =====
-- A test of a buffer, in which IPv4 headers are looked for at every offset, for what the
-- defragmentation of src/decoder.cpp asks of it.
use fdpi.Base.{
  subst, ◌==◌, ℕ, zero, suc, ◌+◌, ◌-◌, ◌*◌, ◌^◌, ◌≤◌, ◌<◌, ◌≡◌, sym, ap, ◌∙◌, Bool, true, ◌&&◌, inl,
  inr, Bool-cases, length, drop, ltb, leb, arith, if◌then◌else◌, if_true,
}
use fdpi.Wire.{Bytes, Outcome, ok, err, fault, truncated_header}
use fdpi.Header.Ipv4.{Ipv4, decode_ipv4}
use fdpi.Defrag.{is_fragment}
use fdpi.Decode.Bounds.Layers.{IsCaptured}

unfoldable pub whole_fragment : Bytes → Outcome Ipv4 → Bool
whole_fragment data' (ok h o) =
    if is_fragment h
    then leb (h.ihl * 4) h.total_length && leb h.total_length (length (drop (o - h.ihl * 4) data'))
    else true
whole_fragment data' (err e o) = true
whole_fragment data' fault = true

unfoldable pub whole_below : ℕ → Bytes → Bool
whole_below zero data' = true
whole_below (suc n) data' = whole_fragment data' (decode_ipv4 data' n) && whole_below n data'

decode_ipv4-outside :
    (data' : Bytes) (o : ℕ) → length data' ≤ o → decode_ipv4 data' o ≡ err truncated_header o
unfolding decode_ipv4
decode_ipv4-outside data' o h = if_true (ltb (length data') (o + 20)) _ _ (ground arith)

whole_below-lt :
    (n : ℕ) (data' : Bytes) (o : ℕ)
    → whole_below n data' ≡ true
    → o < n
    → whole_fragment data' (decode_ipv4 data' o) ≡ true
unfolding whole_below
whole_below-lt zero data' o w h = absurd (omega arith)
whole_below-lt (suc n) data' o w h = elim (Bool-cases (n == o)) [
  | inl same ↦
      let e : n ≡ o = ground arith in
      subst (λ k. whole_fragment data' (decode_ipv4 data' k) ≡ true) e (ground arith)
  | inr other ↦ whole_below-lt n data' o (ground arith) (ground arith)
]

pub whole_below-IsCaptured :
    (data' : Bytes)
    → length data' < 2 ^ 63
    → whole_below (length data') data' ≡ true
    → IsCaptured data'
unfolding whole_fragment
whole_below-IsCaptured data' small w = record {
  small = small;
  whole = λ o o' h e f. elim (Bool-cases (ltb o (length data'))) [
    | inl inside ↦
        let t : whole_fragment data' (ok h o') ≡ true =
          ap (whole_fragment data') (sym e)
          ∙ whole_below-lt (length data') data' o w (ground arith) in
        (ground (arith, t), ground (arith, t))
    | inr outside ↦ absurd (clash (sym e ∙ decode_ipv4-outside data' o (ground arith)))
  ];
}
  where
    clash : {h : Ipv4} {o o' : ℕ} → ok h o ≡ err truncated_header o' → ⊥
    clash e = cc
