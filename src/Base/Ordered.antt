-- ===== src/Base/Ordered.antt =====
-- `std::map` with numbers for keys: an association list in increasing order of the keys.
use Prim.Native.Nat.{ℕ, suc, ◌≤◌, ◌<◌}
use mathlib.Core.Path.{◌≡◌, refl}
use mathlib.Core.Option.{Option, none, some}
use mathlib.Core.List.{List, [], ◌∷◌}
use native.Mathlib.Omega.{arith}
use fdpi.Base.Tests.{ltb, ◌==◌, if◌then◌else◌}
use fdpi.Base.Lists.{length}

module _ {ℓ} {V : Type ℓ} where
  unfoldable pub find : ℕ → List (ℕ × V) → Option V
  find k [] = none
  find k ((j, v) ∷ m) = if j == k then some v else find k m

  -- `m[k] = v`
  unfoldable pub put : ℕ → V → List (ℕ × V) → List (ℕ × V)
  put k v [] = (k, v) ∷ []
  put k v ((j, w) ∷ m) =
      if j == k then (k, v) ∷ m else if ltb k j then (k, v) ∷ (j, w) ∷ m else (j, w) ∷ put k v m

  unfoldable pub remove : ℕ → List (ℕ × V) → List (ℕ × V)
  remove k [] = []
  remove k ((j, w) ∷ m) = if j == k then remove k m else (j, w) ∷ remove k m

  pub find-remove :
      (k j : ℕ) (m : List (ℕ × V)) → find j (remove k m) ≡ (if k == j then none else find j m)
  unfolding find remove
  find-remove k j [] = ground arith
  find-remove k j ((i, w) ∷ m) = ground (arith, find-remove k j m)

  pub length-remove-le : (k : ℕ) (m : List (ℕ × V)) → length (remove k m) ≤ length m
  unfolding remove
  length-remove-le k [] = omega arith
  length-remove-le k ((i, w) ∷ m) = ground (arith, length-remove-le k m)

  pub length-remove-lt :
      (k : ℕ) (m : List (ℕ × V)) {v : V} → find k m ≡ some v → length (remove k m) < length m
  unfolding find remove
  length-remove-lt k [] h = cc
  length-remove-lt k ((i, w) ∷ m) {v} h =
      ground (arith, length-remove-le k m, length-remove-lt k m {v = v})

  pub length-put-le : (k : ℕ) (v : V) (m : List (ℕ × V)) → length (put k v m) ≤ suc (length m)
  unfolding put
  length-put-le k v [] = omega arith
  length-put-le k v ((j, w) ∷ m) = ground (arith, length-put-le k v m)

  pub length-put-pos : (k : ℕ) (v : V) (m : List (ℕ × V)) → 0 < length (put k v m)
  unfolding put
  length-put-pos k v [] = omega arith
  length-put-pos k v ((j, w) ∷ m) = ground arith

  -- Every key of the map lies above `k`.
  abbrev pub Above : ℕ → List (ℕ × V) → Type 0
  Above k [] = Unit
  Above k ((j, _) ∷ m) = (k < j) × Above k m

  abbrev pub IsSorted : List (ℕ × V) → Type 0
  IsSorted [] = Unit
  IsSorted ((j, _) ∷ m) = Above j m × IsSorted m

  pub find-Above : (j k : ℕ) (m : List (ℕ × V)) → Above k m → j ≤ k → find j m ≡ none
  unfolding find
  find-Above j k [] h le = refl
  find-Above j k ((i, w) ∷ m) h le = ground (arith, find-Above j k m h.1 le)

  -- The law of a write and a read, on a map in order.
  pub find-put :
      (k j : ℕ) (v : V) (m : List (ℕ × V))
      → find j (put k v m) ≡ (if k == j then some v else find j m)
  unfolding find put
  find-put k j v [] = ground arith
  find-put k j v ((i, w) ∷ m) = ground (arith, find-put k j v m)

  Above-put : (i k : ℕ) (v : V) (m : List (ℕ × V)) → Above i m → i < k → Above i (put k v m)
  unfolding put
  Above-put i k v [] h lt = (lt, tt)
  Above-put i k v ((j, w) ∷ m) h lt = ground (arith, Above-put i k v m h.1 lt)

  Above-trans : (i k : ℕ) (m : List (ℕ × V)) → Above k m → i < k → Above i m
  Above-trans i k [] h lt = tt
  Above-trans i k ((j, w) ∷ m) h lt = (omega arith, Above-trans i k m h.1 lt)

  pub put-IsSorted : (k : ℕ) (v : V) (m : List (ℕ × V)) → IsSorted m → IsSorted (put k v m)
  unfolding put
  put-IsSorted k v [] h = (tt, tt)
  put-IsSorted k v ((j, w) ∷ m) h =
      ground (arith, put-IsSorted k v m h.1, Above-put j k v m h.0, Above-trans k j m h.0)
