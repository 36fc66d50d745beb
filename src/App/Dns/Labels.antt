-- ===== src/App/Dns/Labels.antt =====
-- Names without compression, as a query has them, and `decodeName` of src/protocol/dns.cpp.
use fdpi.Base.{
  drop-append_length, ℕ, zero, suc, ◌+◌, ◌/◌, ◌%◌, ◌≤◌, ◌<◌, ◌≡◌, refl, ap, ◌∙◌, false, not, some,
  List, [], ◌∷◌, ◌++◌, append_assoc, length, length-append, length-drop, take, drop, ltb, leb, ◌==◌,
  arith, if_true, if_false,
}
use fdpi.Wire.{Bytes, ok, ◌>>=◌, at, copy}
use fdpi.App.Dns.{
  Cursor, goes_on, ended, read_label, dotted, name_round, end_name, name_loop, decode_name, at_pos,
}

-- The labels in wire format, each behind its length, and a zero at the end.
unfoldable pub encode_name : List Bytes → Bytes
encode_name [] = 0 ∷ []
encode_name (l ∷ ls) = length l ∷ (l ++ encode_name ls)

-- Every label has from 1 to 63 bytes.
abbrev pub AreLabels : List Bytes → Type 0
AreLabels [] = Unit
AreLabels (l ∷ ls) = (0 < length l) × (length l < 64) × AreLabels ls

-- The labels behind a name, with dots between.
unfoldable pub join : Bytes → List Bytes → Bytes
join name [] = name
join name (l ∷ ls) = join (dotted name l) ls

at-drop : (p : Bytes) (i b : ℕ) (rest : Bytes) → drop i p ≡ b ∷ rest → at p i ≡ some b
unfolding at
at-drop [] zero b rest e = absurd cc
at-drop [] (suc i) b rest e = absurd cc
at-drop (c ∷ p) zero b rest e = cc
at-drop (c ∷ p) (suc i) b rest e = at-drop p i b rest e

one_more : (i : ℕ) → suc i + 1 ≡ suc (i + 1)
one_more i = omega arith

drop_next : (p : Bytes) (i b : ℕ) (rest : Bytes) → drop i p ≡ b ∷ rest → drop (i + 1) p ≡ rest
drop_next [] zero b rest e = absurd cc
drop_next [] (suc i) b rest e = absurd cc
drop_next (c ∷ p) zero b rest e = cc
drop_next (c ∷ p) (suc i) b rest e = ap (λ k. drop k (c ∷ p)) (one_more i) ∙ drop_next p i b rest e

drop_append :
    (p : Bytes) (i : ℕ) (l rest : Bytes) → drop i p ≡ l ++ rest → drop (i + length l) p ≡ rest
drop_append p i [] rest e = ap (λ k. drop k p) (omega arith) ∙ e
drop_append p i (b ∷ l) rest e =
    ap (λ k. drop k p) (omega arith) ∙ drop_append p (i + 1) l rest (drop_next p i b (l ++ rest) e)

take_append : (l rest : Bytes) → take (length l) (l ++ rest) ≡ l
take_append [] rest = refl
take_append (b ∷ l) rest = ap (λ k. b ∷ k) (take_append l rest)

module _ (data' : Bytes) (dns_start : ℕ) where
  name_round-zero :
      (c : Cursor) (rest : Bytes)
      → c.jumped ≡ false
      → drop c.pos data' ≡ 0 ∷ rest
      → name_round data' dns_start c ≡ ok (ended (record c { pos = c.pos + 1 })) 0
  unfolding name_round ◌>>=◌
  name_round-zero c rest straight e =
      if_false (leb (length data') c.pos) _ _ (ground (arith, ap length e, length-drop c.pos data'))
      ∙ rw (at-drop data' c.pos 0 rest e)
          (ap (λ k. ok (ended k) 0) (if_false c.jumped c _ straight))

  read_label-label :
      (c : Cursor) (l rest : Bytes)
      → drop c.pos data' ≡ length l ∷ (l ++ rest)
      → read_label data' c (length l)
        ≡ ok (goes_on (record c { pos = c.pos + 1 + length l; name = dotted c.name l })) 0
  unfolding read_label copy ◌>>=◌
  read_label-label c l rest e =
      let size : c.pos + 1 + length l ≤ length data' =
        omega (arith, ap length e, length-drop c.pos data', length-append l rest) in
      let label : copy data' (c.pos + 1) (length l) ≡ some l =
        if_true (leb (c.pos + 1 + length l) (length data')) _ _ (ground arith)
        ∙ ap some (
            ap (take (length l)) (drop_next data' c.pos (length l) (l ++ rest) e)
            ∙ take_append l rest) in
      if_false (ltb (length data') (c.pos + 1 + length l)) _ _ (ground arith) ∙ rw label refl

  name_round-label :
      (c : Cursor) (l rest : Bytes)
      → 0 < length l
      → length l < 64
      → drop c.pos data' ≡ length l ∷ (l ++ rest)
      → name_round data' dns_start c
        ≡ ok (goes_on (record c { pos = c.pos + 1 + length l; name = dotted c.name l })) 0
  unfolding name_round ◌>>=◌
  name_round-label c l rest some_data short e =
      if_false (leb (length data') c.pos) _ _ (ground (arith, ap length e, length-drop c.pos data'))
      ∙ rw (at-drop data' c.pos (length l) (l ++ rest) e) (
          if_false (length l == 0) _ _ (ground arith)
          ∙ if_false (length l / 64 % 4 == 3) _ _ (ground arith)
          ∙ if_false (not (length l / 64 % 4 == 0)) _ _ (ground arith)
          ∙ read_label-label c l rest e)

  name_loop-labels :
      (fuel : ℕ) (c : Cursor) (ls : List Bytes) (rest : Bytes)
      → AreLabels ls
      → length ls < fuel
      → c.jumped ≡ false
      → drop c.pos data' ≡ encode_name ls ++ rest
      → name_loop fuel data' dns_start c
        ≡ some (ok (join c.name ls) (c.pos + length (encode_name ls)))
  unfolding name_loop end_name join encode_name
  name_loop-labels zero c ls rest a enough straight e = absurd (omega arith)
  name_loop-labels (suc fuel) c [] rest a enough straight e =
      rw (name_round-zero c rest straight e, name_loop)
        (ap (λ o. some (ok c.name o)) (if_false c.jumped _ _ straight))
  name_loop-labels (suc fuel) c (l ∷ ls) rest a enough straight e =
      rw
        (
          name_round-label c l (encode_name ls ++ rest) a.0 a.1
              (e ∙ ap (λ k. length l ∷ k) (append_assoc l (encode_name ls) rest)),
          name_loop,
        )
        (name_loop-labels fuel _ ls rest a.2 (omega arith) straight (
            drop_append data' (c.pos + 1) l (encode_name ls ++ rest) (
              drop_next data' c.pos (length l) _
                (e ∙ ap (λ k. length l ∷ k) (append_assoc l (encode_name ls) rest))))
          ∙ ap (λ o. some (ok (join (dotted c.name l) ls) o))
              (omega (arith, length-append l (encode_name ls))))

-- A name without compression pointers is decoded wherever it stands in a message, in as many
-- rounds as it has labels and one more: to its labels with dots between, and the offset goes to the
-- byte behind its end.
pub decode_name-encode_name :
    (fuel : ℕ) (before after : Bytes) (dns_start : ℕ) (ls : List Bytes)
    → AreLabels ls
    → length ls < fuel
    → decode_name fuel (before ++ (encode_name ls ++ after)) dns_start (length before)
      ≡ some (ok (join [] ls) (length before + length (encode_name ls)))
unfolding decode_name
decode_name-encode_name fuel before after dns_start ls a enough =
    name_loop-labels (before ++ (encode_name ls ++ after)) dns_start fuel (at_pos (length before))
      ls after a enough refl (drop-append_length before (encode_name ls ++ after))
