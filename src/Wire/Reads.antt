-- ===== src/Wire/Reads.antt =====
-- What the reads of a buffer give.
use fdpi.Wire.{at, Bytes, be16, copy}
use fdpi.Base.{
  ℕ, ◌+◌, ◌*◌, ◌≤◌, ◌≡◌, ◌<◌, ◌↔◌, sym, ap, ◌∙◌, refl, Bool, true, false, some, none, take, drop,
  length, leb, arith, if◌then◌else◌, Option, [], ◌∷◌, ◌++◌, zero, suc, length-drop, length-append,
  take-append_length,
}
use fdpi.Base.Slices.{slice, length-slice}

-- A copy that is made has its length, inside the buffer.
pub copy-eq_some :
    (p : Bytes) (i n : ℕ) (d : Bytes)
    → copy p i n ≡ some d
    → (d ≡ slice i n p) × (length d ≡ n) × (i + n ≤ length p)
unfolding copy
copy-eq_some p i n d h = copied (leb (i + n) (length p)) refl h
  where
    copied :
        (b : Bool)
        → leb (i + n) (length p) ≡ b
        → ◌≡◌ {A = Option Bytes} (if b then some (take n (drop i p)) else none) (some d)
        → (d ≡ slice i n p) × (length d ≡ n) × (i + n ≤ length p)
    copied true e h' =
        let inside : i + n ≤ length p = ground arith in
        let same : slice i n p ≡ d = cc in
        (sym same, ap length (sym same) ∙ length-slice i n p inside, inside)
    copied false e h' = absurd (none-ne-some h')
      where
        none-ne-some : ◌≡◌ {A = Option Bytes} none (some d) → ⊥
        none-ne-some q = cc

pub copy-eq_none : (p : Bytes) (i n : ℕ) → (copy p i n ≡ none) ↔ (length p < i + n)
unfolding copy
copy-eq_none p i n = (λ h. ground arith, λ h. ground arith)

-- The byte at a position, and what stands behind it.
module _ {b : ℕ} {s : Bytes} where
  pub at-drop : (data' : Bytes) (pos : ℕ) → drop pos data' ≡ b ∷ s → at data' pos ≡ some b
  unfolding at
  at-drop [] zero h = absurd cc
  at-drop [] (suc pos) h = absurd cc
  at-drop (c ∷ cs) zero h = cc
  at-drop (c ∷ cs) (suc pos) h = at-drop cs pos h

  pub drop-next : (data' : Bytes) (pos : ℕ) → drop pos data' ≡ b ∷ s → drop (suc pos) data' ≡ s
  drop-next [] zero h = absurd cc
  drop-next [] (suc pos) h = absurd cc
  drop-next (c ∷ cs) zero h = cc
  drop-next (c ∷ cs) (suc pos) h = drop-next cs pos h

pub before_end :
    (data' s : Bytes) (pos b : ℕ) → drop pos data' ≡ b ∷ s → leb (length data') pos ≡ false
before_end data' s pos b h = ground (arith, length-drop pos data', ap length h)

pub drop-past :
    (data' d rest : Bytes) (pos : ℕ)
    → drop pos data' ≡ d ++ rest
    → drop (pos + length d) data' ≡ rest
drop-past data' [] rest pos h = ap (λ k. drop k data') (omega arith) ∙ h
drop-past data' (b ∷ d) rest pos h =
    ap (λ k. drop k data') (omega arith) ∙ drop-past data' d rest (suc pos) (drop-next data' pos h)

pub copy-drop :
    (data' d rest : Bytes) (pos : ℕ)
    → pos ≤ length data'
    → drop pos data' ≡ d ++ rest
    → copy data' pos (length d) ≡ some d
unfolding copy
copy-drop data' d rest pos inside h =
    let fits : leb (pos + length d) (length data') ≡ true =
      ground (arith, length-drop pos data', ap length h, length-append d rest) in
    rw (fits, h) (ap some (take-append_length d rest))

pub be16-drop :
    (data' s : Bytes) (pos a b : ℕ)
    → drop pos data' ≡ a ∷ b ∷ s
    → be16 data' pos ≡ some (a * 256 + b)
unfolding be16
be16-drop data' s pos a b h =
    let next : pos + 1 ≡ suc pos = omega arith in
    let second : at data' (pos + 1) ≡ some b =
      rw next (at-drop data' (suc pos) (drop-next data' pos h)) in
    rw (at-drop data' pos h, second, be16) refl
