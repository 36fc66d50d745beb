-- ===== src/Base/Slices.antt =====
-- Contiguous parts of a list: `slice k n xs` is the `n` elements from index `k` on.
use Prim.Native.Nat.{ℕ, zero, suc, ◌+◌, ◌≤◌}
use mathlib.Core.Path.{◌≡◌, ap}
use mathlib.Core.List.{List, [], ◌∷◌, ◌++◌}
use native.Mathlib.Omega.{arith}
use fdpi.Base.Lists.{length, take, drop, length-take, length-drop}

module _ {ℓ} {A : Type ℓ} where
  abbrev pub slice : ℕ → ℕ → List A → List A
  slice k n xs = take n (drop k xs)

  pub length-slice : (k n : ℕ) (xs : List A) → k + n ≤ length xs → length (slice k n xs) ≡ n
  length-slice k n xs h = omega (arith, length-take n (drop k xs), length-drop k xs)

  -- A prefix and the slice after it make the longer prefix.
  pub take-append-slice :
      (k n : ℕ) (xs : List A) → k ≤ length xs → take k xs ++ slice k n xs ≡ take (k + n) xs
  take-append-slice zero n xs h = ap (λ t. take t xs) (omega arith)
  take-append-slice (suc k) n [] h = absurd (omega arith)
  take-append-slice (suc k) n (x ∷ xs) h = ground (arith, take-append-slice k n xs, shift)
    where
      shift : take (suc k + n) (x ∷ xs) ≡ x ∷ take (k + n) xs
      shift = ap (λ t. take t (x ∷ xs)) (let e : suc k + n ≡ suc (k + n) = omega arith in e)
