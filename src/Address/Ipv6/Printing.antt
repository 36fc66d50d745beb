-- ===== src/Address/Ipv6/Printing.antt =====
-- What `IPv6Address::toString` of src/address.cpp writes, and the run that it leaves out.
use fdpi.Base.{
  ℕ, ◌+◌, ◌<◌, ◌≡◌, refl, ap, ◌∙◌, sym, List, [], ◌∷◌, ◌++◌, length, append_assoc, not, ◌&&◌, ◌==◌,
  ltb, leb, arith, if_true, if_false,
}
use fdpi.Text.{hexadecimal}
use fdpi.Address.Ipv6.{compressed, uncompressed}
use fdpi.Address.Ipv6.Splitting.{tails, joined}

uncompressed-tails : (i : ℕ) (gs : List ℕ) → 0 < i → uncompressed i gs ≡ tails gs
unfolding uncompressed tails
uncompressed-tails i [] h = refl
uncompressed-tails i (g ∷ gs) h =
    if_true (ltb 0 i) _ _ (ground arith)
    ∙ ap (λ x. 58 ∷ (hexadecimal g ++ x)) (uncompressed-tails (i + 1) gs (omega arith))

pub uncompressed-joined : (gs : List ℕ) → uncompressed 0 gs ≡ joined gs
unfolding uncompressed joined
uncompressed-joined [] = refl
uncompressed-joined (g ∷ gs) = ap (λ x. hexadecimal g ++ x) (uncompressed-tails 1 gs (omega arith))

module _ (start len : ℕ) where
  behind : (i : ℕ) (gs : List ℕ) → start + len < i → compressed start len i gs ≡ tails gs
  unfolding compressed tails
  behind i [] h = refl
  behind i (g ∷ gs) h =
      if_false (i == start) _ _ (ground arith)
      ∙ (if_false (leb start i && ltb i (start + len)) _ _ (ground arith)
          ∙ (if_true (ltb 0 i && not (i == start + len)) _ _ (ground arith)
              ∙ ap (λ x. 58 ∷ (hexadecimal g ++ x)) (behind (i + 1) gs (omega arith))))

  at_end : (i : ℕ) (gs : List ℕ) → 0 < len → i ≡ start + len → compressed start len i gs ≡ joined gs
  unfolding compressed joined
  at_end i [] p h = refl
  at_end i (g ∷ gs) p h =
      if_false (i == start) _ _ (ground arith)
      ∙ (if_false (leb start i && ltb i (start + len)) _ _ (ground arith)
          ∙ (if_false (ltb 0 i && not (i == start + len)) _ _ (ground arith)
              ∙ ap (λ x. hexadecimal g ++ x) (behind (i + 1) gs (omega arith))))

  inside :
      (i : ℕ) (m r : List ℕ)
      → start < i
      → i + length m ≡ start + len
      → compressed start len i (m ++ r) ≡ joined r
  unfolding compressed
  inside i [] r l h = at_end i r (omega arith) (omega arith)
  inside i (z ∷ m) r l h =
      if_false (i == start) _ _ (ground arith)
      ∙ (if_true (leb start i && ltb i (start + len)) _ _ (ground arith)
          ∙ inside (i + 1) m r (omega arith) (omega arith))

  from_start :
      (i z : ℕ) (m r : List ℕ)
      → i ≡ start
      → 1 + length m ≡ len
      → compressed start len i (z ∷ (m ++ r)) ≡ 58 ∷ 58 ∷ joined r
  unfolding compressed
  from_start i z m r e h =
      if_true (i == start) _ _ (ground arith)
      ∙ ap (λ x. 58 ∷ 58 ∷ x) (inside (i + 1) m r (omega arith) (omega arith))

  in_front_of :
      (i : ℕ) (l : List ℕ) (z : ℕ) (m r : List ℕ)
      → 0 < i
      → i + length l ≡ start
      → 1 + length m ≡ len
      → compressed start len i (l ++ (z ∷ (m ++ r))) ≡ tails l ++ (58 ∷ 58 ∷ joined r)
  unfolding compressed tails
  in_front_of i [] z m r p e h = from_start i z m r (omega arith) h
  in_front_of i (g ∷ l) z m r p e h =
      if_false (i == start) _ _ (ground arith)
      ∙ (if_false (leb start i && ltb i (start + len)) _ _ (ground arith)
          ∙ (if_true (ltb 0 i && not (i == start + len)) _ _ (ground arith)
              ∙ (ap (λ x. 58 ∷ (hexadecimal g ++ x))
                    (in_front_of (i + 1) l z m r (omega arith) (omega arith) h)
                  ∙ ap (λ x. 58 ∷ x) (sym (append_assoc (hexadecimal g) (tails l) _)))))

  pub compressed-joined :
      (l : List ℕ) (z : ℕ) (m r : List ℕ)
      → length l ≡ start
      → 1 + length m ≡ len
      → compressed start len 0 (l ++ (z ∷ (m ++ r))) ≡ joined l ++ (58 ∷ 58 ∷ joined r)
  unfolding compressed joined
  compressed-joined [] z m r e h = from_start 0 z m r (omega arith) h
  compressed-joined (g ∷ l) z m r e h =
      if_false (0 == start) _ _ (ground arith)
      ∙ (if_false (leb start 0 && ltb 0 (start + len)) _ _ (ground arith)
          ∙ (ap (λ x. hexadecimal g ++ x) (in_front_of 1 l z m r (omega arith) (omega arith) h)
              ∙ sym (append_assoc (hexadecimal g) (tails l) _)))
