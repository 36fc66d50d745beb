-- ===== src/Address/Ipv6/Zeros.antt =====
-- The run of zeros that `IPv6Address::toString` of src/address.cpp finds.
use fdpi.Base.{
  length-append, ℕ, zero, suc, ◌+◌, ◌<◌, ◌≡◌, refl, ap, ◌∙◌, sym, List, [], ◌∷◌, ◌++◌, length,
  append_assoc, append-nil, subst, if_false, ◌==◌, ltb, arith, if-elim, if◌then◌else◌,
}
use fdpi.Address.Ipv6.{zeros, Runs, keep_best, see_group, find_zeros, no_runs}

-- A run of `len` zeros from `start` on in the groups, and one at their end.
abbrev pub HasRun : List ℕ → ℕ → ℕ → Type 0
HasRun p start len = (l : List ℕ) × (r : List ℕ) × (p ≡ l ++ (zeros len ++ r)) × (length l ≡ start)

abbrev EndsInRun : List ℕ → ℕ → ℕ → Type 0
EndsInRun p start len = (l : List ℕ) × (p ≡ l ++ zeros len) × (0 < len → length l ≡ start)

zeros_snoc : (n : ℕ) → zeros n ++ (0 ∷ []) ≡ zeros (n + 1)
unfolding zeros
zeros_snoc zero = refl
zeros_snoc (suc n) =
    let e : suc (n + 1) ≡ suc n + 1 = omega arith in ap (λ x. 0 ∷ x) (zeros_snoc n) ∙ ap zeros e

HasRun-append : (p q : List ℕ) (s n : ℕ) → HasRun p s n → HasRun (p ++ q) s n
HasRun-append p q s n (l, r, e, h) = (
  l,
  r ++ q,
  ap (λ x. x ++ q) e ∙ (append_assoc l _ q ∙ ap (λ x. l ++ x) (append_assoc (zeros n) r q)),
  h,
)

EndsInRun-HasRun : (p : List ℕ) (s n : ℕ) → 0 < n → EndsInRun p s n → HasRun p s n
EndsInRun-HasRun p s n h (l, e, k) = (l, [], e ∙ ap (λ x. l ++ x) (sym (append-nil (zeros n))), k h)

-- What is known of the runs behind the groups `p`.
abbrev Known : List ℕ → Runs → Type 0
Known p r = EndsInRun p r.cur_start r.cur_len × HasRun p r.best_start r.best_len

keep_best-Known : (p : List ℕ) (r : Runs) → 0 < r.cur_len → Known p r → Known p (keep_best r)
unfolding keep_best
keep_best-Known p r h (c, b) =
    if-elim (Known p) (ltb r.best_len r.cur_len) (λ _. (c, EndsInRun-HasRun p _ _ h c)) λ _. (c, b)

more_zeros :
    (p : List ℕ) (i g s n : ℕ)
    → g ≡ 0
    → length p ≡ i
    → EndsInRun p s n
    → EndsInRun (p ++ (g ∷ [])) (if n == 0 then i else s) (n + 1)
unfolding zeros
more_zeros p i g s zero z h c = (p, ap (λ x. p ++ (x ∷ [])) z, λ _. h)
more_zeros p i g s (suc n) z h (l, e, k) = (
  l,
  ap (λ x. p ++ (x ∷ [])) z
      ∙ (ap (λ x. x ++ (0 ∷ [])) e
          ∙ (append_assoc l (zeros (suc n)) (0 ∷ []) ∙ ap (λ x. l ++ x) (zeros_snoc (suc n)))),
  λ _. k (omega arith) ∙ sym (if_false (suc n == 0) i s (ground arith)),
)

see_group-Known :
    (p : List ℕ) (i g : ℕ) (r : Runs)
    → length p ≡ i
    → Known p r
    → Known (p ++ (g ∷ [])) (see_group i g r)
unfolding see_group zeros
see_group-Known p i g r h (c, b) =
    if-elim (Known (p ++ (g ∷ []))) (g == 0)
      (λ zero_group.
        keep_best-Known _ _ (omega arith)
          (more_zeros p i g _ _ (ground arith) h c, HasRun-append p _ _ _ b))
      λ _. (
        (p ++ (g ∷ []), sym (append-nil _), λ some_zeros. absurd (omega arith)),
        HasRun-append p _ _ _ b,
      )

find_zeros-Known :
    (p : List ℕ) (i : ℕ) (r : Runs) (gs : List ℕ)
    → length p ≡ i
    → Known p r
    → HasRun (p ++ gs) (find_zeros i r gs).best_start (find_zeros i r gs).best_len
unfolding find_zeros
find_zeros-Known p i r [] h k = HasRun-append p [] _ _ k.1
find_zeros-Known p i r (g ∷ gs) h k =
    subst
      (λ x.
        HasRun x (find_zeros (i + 1) (see_group i g r) gs).best_start
          (find_zeros (i + 1) (see_group i g r) gs).best_len)
      (append_assoc p (g ∷ []) gs)
      (find_zeros-Known (p ++ (g ∷ [])) (i + 1) (see_group i g r) gs
        (length-append p (g ∷ []) ∙ ap (λ x. x + 1) h) (see_group-Known p i g r h k))

-- The run that is found is one of the groups.
pub find_zeros-HasRun :
    (gs : List ℕ)
    → HasRun gs (find_zeros 0 no_runs gs).best_start (find_zeros 0 no_runs gs).best_len
unfolding zeros
find_zeros-HasRun gs =
    find_zeros-Known [] 0 no_runs gs refl (([], refl, λ _. refl), ([], [], refl, refl))
