-- ===== src/Address/Ipv6/RoundTrip.antt =====
-- IPv6 addresses of src/address.cpp are read as they are written.
use fdpi.Base.{
  subst, ℕ, zero, suc, ◌+◌, ◌-◌, ◌*◌, ◌/◌, ◌%◌, ◌<◌, ◌≤◌, ◌≡◌, refl, ap, ◌∙◌, sym, List, [], ◌∷◌,
  ◌++◌, length, append-nil, none, some, ◌==◌, ltb, leb, arith, if-elim, if_true, length-append,
}
use fdpi.Wire.{Bytes}
use fdpi.Address.RoundTrip.{AreBytes}
use fdpi.Address.Ipv6.{
  split_double, parse_groups, parse_ipv6, read_groups, write_groups, zeros, find_zeros, no_runs,
  compressed, uncompressed, print_ipv6,
}
use fdpi.Address.Ipv6.Splitting.{
  joined, AreGroups, in_front, joined-split_double, parse_groups-joined,
}
use fdpi.Address.Ipv6.Printing.{compressed-joined, uncompressed-joined}
use fdpi.Address.Ipv6.Zeros.{HasRun, find_zeros-HasRun}

parse_ipv6_all :
    (s : Bytes) (gs : List ℕ)
    → split_double s ≡ none
    → parse_groups s ≡ some gs
    → length gs ≡ 8
    → parse_ipv6 s ≡ some (write_groups gs)
unfolding parse_ipv6
parse_ipv6_all s gs e f h = rw (e, f, parse_ipv6) (if_true (length gs == 8) _ _ (ground arith))

parse_ipv6_parts :
    (s t u : Bytes) (l r : List ℕ)
    → split_double s ≡ some (t, u)
    → parse_groups t ≡ some l
    → parse_groups u ≡ some r
    → length l + length r ≤ 8
    → parse_ipv6 s ≡ some (write_groups (l ++ (zeros (8 - (length l + length r)) ++ r)))
unfolding parse_ipv6
parse_ipv6_parts s t u l r e f g h =
    rw (e, f, g, parse_ipv6) (if_true (leb (length l + length r) 8) _ _ (ground arith))

length-zeros : (n : ℕ) → length (zeros n) ≡ n
unfolding zeros
length-zeros zero = refl
length-zeros (suc n) = omega (arith, length-zeros n)

length-run :
    (gs l r : List ℕ) (n : ℕ) → gs ≡ l ++ (zeros n ++ r) → length gs ≡ length l + (n + length r)
length-run gs l r n e =
    ap length e
    ∙ (length-append l _
        ∙ ap (λ x. length l + x)
            (length-append (zeros n) r ∙ ap (λ x. x + length r) (length-zeros n)))

left-AreGroups : (l r : List ℕ) → AreGroups (l ++ r) → AreGroups l
unfolding AreGroups
left-AreGroups [] r h = tt
left-AreGroups (g ∷ l) r h = (h.0, left-AreGroups l r h.1)

right-AreGroups : (l r : List ℕ) → AreGroups (l ++ r) → AreGroups r
unfolding AreGroups
right-AreGroups [] r h = h
right-AreGroups (g ∷ l) r h = right-AreGroups l r h.1

-- Groups with a run of zeros are read as they are written without it.
parse_ipv6-compressed :
    (gs : List ℕ) (start len : ℕ)
    → AreGroups gs
    → length gs ≡ 8
    → 0 < len
    → HasRun gs start len
    → parse_ipv6 (compressed start len 0 gs) ≡ some (write_groups gs)
unfolding split_double in_front zeros
parse_ipv6-compressed gs start zero a n p run = absurd (omega arith)
parse_ipv6-compressed gs start (suc k) a n p (l, r, e, h) =
    let groups : AreGroups (l ++ (zeros (suc k) ++ r)) = subst AreGroups e a in
    let zero_fill : 8 - (length l + length r) ≡ suc k =
      omega (arith, length-run gs l r (suc k) e) in
    let total : length l + (suc k + length r) ≡ 8 = sym (length-run gs l r (suc k) e) ∙ n in
    ap parse_ipv6 (
      ap (compressed start (suc k) 0) e
      ∙ compressed-joined start (suc k) l 0 (zeros k) r h (omega (arith, length-zeros k)))
    ∙ (parse_ipv6_parts _ (joined l) (joined r) l r
          (joined-split_double l _ (left-AreGroups l _ groups)
            ∙ ap (λ x. some (x, joined r)) (append-nil (joined l)))
          (parse_groups-joined l (left-AreGroups l _ groups))
          (parse_groups-joined r (right-AreGroups (zeros (suc k)) r (right-AreGroups l _ groups)))
          (omega (arith, total))
        ∙ (ap (λ m. some (write_groups (l ++ (zeros m ++ r)))) zero_fill
            ∙ ap (λ x. some (write_groups x)) (sym e)))

parse_ipv6-uncompressed :
    (gs : List ℕ)
    → AreGroups gs
    → length gs ≡ 8
    → parse_ipv6 (uncompressed 0 gs) ≡ some (write_groups gs)
unfolding split_double in_front
parse_ipv6-uncompressed gs a n =
    ap parse_ipv6 (uncompressed-joined gs)
    ∙ parse_ipv6_all (joined gs) gs
        (ap split_double (sym (append-nil (joined gs))) ∙ joined-split_double gs [] a)
        (parse_groups-joined gs a) n

write_groups-read_groups :
    (n : ℕ) (b : Bytes)
    → length b ≡ n + n
    → AreBytes b
    → (write_groups (read_groups b) ≡ b) × (length (read_groups b) ≡ n) × AreGroups (read_groups b)
unfolding write_groups read_groups AreGroups
write_groups-read_groups n [] e h = (refl, omega arith, tt)
write_groups-read_groups n (a ∷ []) e h = absurd (omega arith)
write_groups-read_groups zero (a ∷ b ∷ s) e h = absurd (omega arith)
write_groups-read_groups (suc n) (a ∷ b ∷ s) e h =
    let (same, long, groups) = write_groups-read_groups n s (omega arith) h.1.1 in
    let bound : b < 256 = h.1.0 in
    let first : a < 256 = h.0 in
    let high : (a * 256 + b) / 256 % 256 ≡ a = omega arith in
    let low : (a * 256 + b) % 256 ≡ b = omega arith in
    (
      ap (λ x. x ∷ ((a * 256 + b) % 256) ∷ write_groups (read_groups s)) high
          ∙ (ap (λ x. a ∷ x ∷ write_groups (read_groups s)) low ∙ ap (λ x. a ∷ b ∷ x) same),
      omega arith,
      (omega arith, groups),
    )

-- An IPv6Address of sixteen bytes is read back from its toString as it was, whichever run of zeros
-- is written as two colons.
pub parse_ipv6-print_ipv6 :
    (bytes : Bytes)
    → length bytes ≡ 16
    → AreBytes bytes
    → parse_ipv6 (print_ipv6 bytes) ≡ some bytes
unfolding print_ipv6
parse_ipv6-print_ipv6 bytes n h =
    let (same, long, groups) = write_groups-read_groups 8 bytes n h in
    if-elim (λ s. parse_ipv6 s ≡ some bytes)
      (ltb (find_zeros 0 no_runs (read_groups bytes)).best_len 2)
      (λ short. parse_ipv6-uncompressed (read_groups bytes) groups long ∙ ap some same)
      λ run.
        parse_ipv6-compressed (read_groups bytes) _ _ groups long (ground arith)
          (find_zeros-HasRun (read_groups bytes))
        ∙ ap some same
