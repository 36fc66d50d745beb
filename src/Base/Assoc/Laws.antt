-- ===== src/Base/Assoc/Laws.antt =====
-- Maps whose keys are distinct: how many entries a map has, and what holds of all of them.
use Prim.Native.Nat.{◌+◌}
use mathlib.Core.Path.{◌≡◌, refl, subst}
use mathlib.Core.Logic.{inl, inr}
use mathlib.Core.Option.{Option, none, some}
use mathlib.Core.List.{List, [], ◌∷◌}
use native.Mathlib.Omega.{arith}
use fdpi.Base.Tests.{Bool-cases, if-elim}
use fdpi.Base.Lists.{length}
use fdpi.Base.Assoc.{Eq, lookup, insert, erase, lookup-insert, lookup-erase}

module _ {ℓ κ} {K : Type ℓ} {V : Type κ} ⦃e : Eq K⦄ where
  -- No key stands behind an entry of its own.
  abbrev pub AreDistinct : List (K × V) → Type κ
  AreDistinct [] = Unit
  AreDistinct ((j, w) ∷ m) = (lookup j m ≡ none) × AreDistinct m

  pub insert-AreDistinct :
      (k : K) (v : V) (m : List (K × V)) → AreDistinct m → AreDistinct (insert k v m)
  unfolding insert lookup
  insert-AreDistinct k v [] d = (refl, tt)
  insert-AreDistinct k v ((j, w) ∷ m) d = elim (Bool-cases (e.beq j k)) [
    | inl same ↦ rw same (ground (arith, e.beq_iff j k), d.1)
    | inr other ↦ rw other (
      ground (arith, lookup-insert k j v m, e.beq_iff k j, e.beq_iff j k, d.0),
      insert-AreDistinct k v m d.1,
    )
  ]

  pub erase-AreDistinct : (k : K) (m : List (K × V)) → AreDistinct m → AreDistinct (erase k m)
  unfolding erase
  erase-AreDistinct k [] d = tt
  erase-AreDistinct k ((j, w) ∷ m) d = elim (Bool-cases (e.beq j k)) [
    | inl same ↦ rw same (erase-AreDistinct k m d.1)
    | inr other ↦ rw other (ground (arith, lookup-erase k j m, d.0), erase-AreDistinct k m d.1)
  ]

  pub erase_absent : (k : K) (m : List (K × V)) → lookup k m ≡ none → erase k m ≡ m
  unfolding erase lookup
  erase_absent k [] h = refl
  erase_absent k ((j, w) ∷ m) h = ground (arith, erase_absent k m)

  pub length-insert_new :
      (k : K) (v : V) (m : List (K × V)) → lookup k m ≡ none → length (insert k v m) ≡ length m + 1
  unfolding insert lookup
  length-insert_new k v [] h = omega arith
  length-insert_new k v ((j, w) ∷ m) h = ground (arith, length-insert_new k v m)

  pub length-insert_old :
      (k : K) (v w : V) (m : List (K × V)) → lookup k m ≡ some w → length (insert k v m) ≡ length m
  unfolding insert lookup
  length-insert_old k v w [] h = cc
  length-insert_old k v w ((j, u) ∷ m) h = ground (arith, length-insert_old k v w m)

  pub length-erase :
      (k : K) (w : V) (m : List (K × V))
      → AreDistinct m
      → lookup k m ≡ some w
      → length (erase k m) + 1 ≡ length m
  unfolding erase lookup
  length-erase k w [] d h = cc
  length-erase k w ((j, u) ∷ m) d h =
      ground (arith, length-erase k w m d.1, erase_absent k m, e.beq_iff j k, d.0)

  -- A predicate of all entries.
  abbrev pub All {μ} : (K → V → Type μ) → List (K × V) → Type μ
  All P [] = Unit
  All P ((j, w) ∷ m) = P j w × All P m

  pub All-insert {μ} :
      (P : K → V → Type μ) (k : K) (v : V) (m : List (K × V))
      → P k v
      → All P m
      → All P (insert k v m)
  unfolding insert
  All-insert P k v [] p a = (p, tt)
  All-insert P k v ((j, w) ∷ m) p a =
      if-elim (All P) (e.beq j k) (λ _. (p, a.1)) λ _. (a.0, All-insert P k v m p a.1)

  pub All-erase {μ} : (P : K → V → Type μ) (k : K) (m : List (K × V)) → All P m → All P (erase k m)
  unfolding erase
  All-erase P k [] a = tt
  All-erase P k ((j, w) ∷ m) a =
      if-elim (All P) (e.beq j k) (λ _. All-erase P k m a.1) λ _. (a.0, All-erase P k m a.1)

  pub All-lookup {μ} :
      (P : K → V → Type μ) (k : K) (w : V) (m : List (K × V))
      → lookup k m ≡ some w
      → All P m
      → P k w
  unfolding lookup
  All-lookup P k w [] h a = absurd (none-ne-some h)
    where
      none-ne-some : ◌≡◌ {A = Option V} none (some w) → ⊥
      none-ne-some q = cc
  All-lookup P k w ((j, u) ∷ m) h a = elim (Bool-cases (e.beq j k)) [
    | inl same ↦
        let e₁ : u ≡ w = ground arith in
        let e₂ : j ≡ k = (e.beq_iff j k).0 same in subst (λ v. P k v) e₁ (subst (λ i. P i u) e₂ a.0)
    | inr other ↦ All-lookup P k w m (ground arith) a.1
  ]
