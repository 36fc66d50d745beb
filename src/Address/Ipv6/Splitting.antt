-- ===== src/Address/Ipv6/Splitting.antt =====
-- Texts of IPv6 groups, src/address.cpp: what finds the colons in them.
use fdpi.Base.{
  arith, if-elim, ◌<◌, ℕ, ◌/◌, ◌%◌, ◌≡◌, refl, ap, ◌∙◌, map, length, append_assoc, sym, Option,
  none, some, List, [], ◌∷◌, ◌++◌, ◌==◌, false, ltb,
}
use fdpi.Text.Numbers.{from_chars-hexadecimal}
use fdpi.Text.{hexadecimal, hex_digit}
use fdpi.Address.Ipv6.{
  ltb, some, Option, List, ◌∷◌, split_double, colon_parts, parse_groups, hex_groups,
}
use fdpi.Wire.{Bytes}

-- The groups behind a first one.
unfoldable pub tails : List ℕ → Bytes
tails [] = []
tails (g ∷ gs) = 58 ∷ (hexadecimal g ++ tails gs)

-- Groups with colons between them.
unfoldable pub joined : List ℕ → Bytes
joined [] = []
joined (g ∷ gs) = hexadecimal g ++ tails gs

-- Characters in front of the first `::`.
unfoldable pub in_front : Bytes → Option (Bytes × Bytes) → Option (Bytes × Bytes)
in_front p none = none
in_front p (some (l, r)) = some (p ++ l, r)

in_front_nothing : (o : Option (Bytes × Bytes)) → o ≡ in_front [] o
unfolding in_front
in_front_nothing none = refl
in_front_nothing (some (l, r)) = refl

one_in_front :
    (c : ℕ) (o : Option (Bytes × Bytes))
    → elim o [ none ↦ none | some (l, r) ↦ some (c ∷ l, r) ] ≡ in_front (c ∷ []) o
unfolding in_front
one_in_front c none = refl
one_in_front c (some (l, r)) = refl

split_double_digit :
    (c : ℕ) (t : Bytes)
    → (c == 58) ≡ false
    → split_double (c ∷ t) ≡ in_front (c ∷ []) (split_double t)
unfolding split_double in_front
split_double_digit c [] h = refl
split_double_digit c (d ∷ t) h = rw (h, split_double) (one_in_front c (split_double (d ∷ t)))

split_double_colon :
    (d : ℕ) (t : Bytes)
    → (d == 58) ≡ false
    → split_double (58 ∷ d ∷ t) ≡ in_front (58 ∷ []) (split_double (d ∷ t))
unfolding split_double in_front
split_double_colon d t h = rw (h, split_double) (one_in_front 58 (split_double (d ∷ t)))

in_front_twice :
    (p q : Bytes) (o : Option (Bytes × Bytes)) → in_front p (in_front q o) ≡ in_front (p ++ q) o
unfolding in_front
in_front_twice p q none = refl
in_front_twice p q (some (l, r)) = ap (λ x. some (x, r)) (sym (append_assoc p q l))

digit_lem : (n : ℕ) → n < 16 → (hex_digit n == 58) ≡ false
unfolding hex_digit
digit_lem n h = ground arith

unfoldable pub AreDigits : Bytes → Type 0
AreDigits [] = Unit
AreDigits (c ∷ s) = ((c == 58) ≡ false) × AreDigits s

hexadecimal-AreDigits : (g : ℕ) → g < 65536 → AreDigits (hexadecimal g)
unfolding hexadecimal AreDigits
hexadecimal-AreDigits g h =
    if-elim AreDigits (ltb g 16) (λ one. (digit_lem g (ground arith), tt))
      λ more.
        if-elim AreDigits (ltb g 256)
          (λ two. (digit_lem (g / 16) (ground arith), (digit_lem (g % 16) (omega arith), tt)))
          λ more2.
            if-elim AreDigits (ltb g 4096)
              (λ three. (
                digit_lem (g / 256) (ground arith),
                (digit_lem (g / 16 % 16) (omega arith), (digit_lem (g % 16) (omega arith), tt)),
              ))
              λ four. (
                digit_lem (g / 4096) (omega arith),
                (
                  digit_lem (g / 256 % 16) (omega arith),
                  (digit_lem (g / 16 % 16) (omega arith), (digit_lem (g % 16) (omega arith), tt)),
                ),
              )

cons_some : (c : ℕ) (s : Bytes) → (c ∷ s) ≡ [] → ⊥
cons_some c s e = let z : length (c ∷ s) ≡ 0 = ap length e in absurd (omega arith)

hexadecimal_some : (g : ℕ) → hexadecimal g ≡ [] → ⊥
unfolding hexadecimal
hexadecimal_some g =
    if-elim (λ s. s ≡ [] → ⊥) (ltb g 16) (λ one. cons_some _ _)
      λ more.
        if-elim (λ s. s ≡ [] → ⊥) (ltb g 256) (λ one. cons_some _ _)
          λ more2.
            if-elim (λ s. s ≡ [] → ⊥) (ltb g 4096) (λ one. cons_some _ _) λ more3. cons_some _ _

-- Groups are numbers of 16 bits.
unfoldable pub AreGroups : List ℕ → Type 0
AreGroups [] = Unit
AreGroups (g ∷ gs) = (g < 65536) × AreGroups gs

split_double_digits :
    (s t : Bytes) → AreDigits s → split_double (s ++ t) ≡ in_front s (split_double t)
unfolding AreDigits in_front
split_double_digits [] t h = in_front_nothing (split_double t)
split_double_digits (c ∷ s) t h =
    split_double_digit c (s ++ t) h.0
    ∙ (ap (in_front (c ∷ [])) (split_double_digits s t h.1)
        ∙ in_front_twice (c ∷ []) s (split_double t))

-- A colon and a group behind it.
split_double_colon_digits :
    (s t : Bytes)
    → AreDigits s
    → (s ≡ [] → ⊥)
    → split_double (58 ∷ (s ++ t)) ≡ in_front (58 ∷ s) (split_double t)
unfolding AreDigits
split_double_colon_digits [] t h e = absurd (e refl)
split_double_colon_digits (c ∷ s) t h e =
    split_double_colon c (s ++ t) h.0
    ∙ (ap (in_front (58 ∷ [])) (split_double_digits (c ∷ s) t h)
        ∙ in_front_twice (58 ∷ []) (c ∷ s) (split_double t))

-- The parts of digits in front of a colon, or of nothing.
colon_parts_digits :
    (s t : Bytes)
    → AreDigits s
    → (colon_parts t).0 ≡ []
    → colon_parts (s ++ t) ≡ (s, (colon_parts t).1)
unfolding colon_parts AreDigits
colon_parts_digits [] t h e = ap (λ x. (x, (colon_parts t).1)) e
colon_parts_digits (c ∷ s) t h e = rw (h.0, colon_parts_digits s t h.1 e, colon_parts) refl

-- Groups up to a text that starts with `::`, or to the end.
tails-split_double :
    (gs : List ℕ) (t : Bytes)
    → AreGroups gs
    → split_double (tails gs ++ t) ≡ in_front (tails gs) (split_double t)
unfolding tails AreGroups
tails-split_double [] t h = in_front_nothing (split_double t)
tails-split_double (g ∷ gs) t h =
    ap (λ x. split_double (58 ∷ x)) (append_assoc (hexadecimal g) (tails gs) t)
    ∙ (split_double_colon_digits (hexadecimal g) (tails gs ++ t) (hexadecimal-AreDigits g h.0)
          (hexadecimal_some g)
        ∙ (ap (in_front (58 ∷ hexadecimal g)) (tails-split_double gs t h.1)
            ∙ in_front_twice (58 ∷ hexadecimal g) (tails gs) (split_double t)))

pub joined-split_double :
    (gs : List ℕ) (t : Bytes)
    → AreGroups gs
    → split_double (joined gs ++ t) ≡ in_front (joined gs) (split_double t)
unfolding joined AreGroups
joined-split_double [] t h = in_front_nothing (split_double t)
joined-split_double (g ∷ gs) t h =
    ap split_double (append_assoc (hexadecimal g) (tails gs) t)
    ∙ (split_double_digits (hexadecimal g) (tails gs ++ t) (hexadecimal-AreDigits g h.0)
        ∙ (ap (in_front (hexadecimal g)) (tails-split_double gs t h.1)
            ∙ in_front_twice (hexadecimal g) (tails gs) (split_double t)))

group-colon_parts :
    (g : ℕ) (gs : List ℕ)
    → g < 65536
    → colon_parts (tails gs) ≡ ([], map hexadecimal gs)
    → colon_parts (hexadecimal g ++ tails gs) ≡ (hexadecimal g, map hexadecimal gs)
group-colon_parts g gs h e =
    colon_parts_digits (hexadecimal g) (tails gs) (hexadecimal-AreDigits g h) (ap (λ x. x.0) e)
    ∙ ap (λ x. (hexadecimal g, x.1)) e

tails-colon_parts : (gs : List ℕ) → AreGroups gs → colon_parts (tails gs) ≡ ([], map hexadecimal gs)
unfolding tails AreGroups colon_parts
tails-colon_parts [] h = refl
tails-colon_parts (g ∷ gs) h =
    ap (λ x. ([], x.0 ∷ x.1)) (group-colon_parts g gs h.0 (tails-colon_parts gs h.1))

hex_groups-hexadecimal : (gs : List ℕ) → AreGroups gs → hex_groups (map hexadecimal gs) ≡ some gs
unfolding hex_groups AreGroups
hex_groups-hexadecimal [] h = refl
hex_groups-hexadecimal (g ∷ gs) h =
    rw (from_chars-hexadecimal g h.0, hex_groups-hexadecimal gs h.1, hex_groups) refl

parse_groups_some :
    (s : Bytes) (first : Bytes) (others : List Bytes)
    → (s ≡ [] → ⊥)
    → colon_parts s ≡ (first, others)
    → parse_groups s ≡ hex_groups (first ∷ others)
unfolding parse_groups
parse_groups_some [] first others h e = absurd (h refl)
parse_groups_some (c ∷ s) first others h e = ap (λ x. hex_groups (x.0 ∷ x.1)) e

append_some : (s t : Bytes) → (s ≡ [] → ⊥) → s ++ t ≡ [] → ⊥
append_some [] t h e = h refl
append_some (c ∷ s) t h e = cons_some c (s ++ t) e

pub parse_groups-joined : (gs : List ℕ) → AreGroups gs → parse_groups (joined gs) ≡ some gs
unfolding joined AreGroups parse_groups
parse_groups-joined [] h = refl
parse_groups-joined (g ∷ gs) h =
    parse_groups_some (hexadecimal g ++ tails gs) (hexadecimal g) (map hexadecimal gs)
      (append_some _ _ (hexadecimal_some g)) (group-colon_parts g gs h.0 (tails-colon_parts gs h.1))
    ∙ hex_groups-hexadecimal (g ∷ gs) h
