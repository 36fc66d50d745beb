-- ===== src/App/Line.antt =====
-- Lines of text, as src/protocol/smtp.cpp and src/protocol/pop3.cpp read them: `find`, `starts_with` and
-- the words of a command.
use fdpi.Base.{
  ℕ, ◌+◌, ◌≤◌, ◌≡◌, refl, Bool, true, false, ◌&&◌, Option, none, some, [], ◌∷◌, length, take, drop,
  length-drop, leb, ◌==◌, arith, if◌then◌else◌, Option-cases, inl, inr,
}
use fdpi.Wire.{Bytes, Outcome, ok, err, truncated_header, malformed_packet}
use fdpi.Wire.Bounded.{Bounded, returns, fails, Bounded-if}
use fdpi.Text.{split_at}

unfoldable pub starts_with : Bytes → Bytes → Bool
starts_with [] s = true
starts_with (a ∷ as') [] = false
starts_with (a ∷ as') (b ∷ s) = a == b && starts_with as' s

-- The position of the first occurrence of a text that is not empty.
unfoldable pub find_text : Bytes → Bytes → Option ℕ
find_text needle [] = none
find_text needle (b ∷ s) =
    if starts_with needle (b ∷ s)
    then some 0
    else elim (find_text needle s) [ none ↦ none | some n ↦ some (n + 1) ]

abbrev pub crlf : Bytes
crlf = 13 ∷ 10 ∷ []

-- A command and its argument, which stand around the first space.
unfoldable pub command_of : Bytes → Bytes × Bytes
command_of line = elim (split_at 32 line) [ none ↦ (line, []) | some (l, r) ↦ (l, r) ]

-- The first line from the offset on goes to `read`; an empty line is an error.
unfoldable pub decode_line {ℓ} : {A : Type ℓ} → (Bytes → A) → Bytes → ℕ → Outcome A
decode_line read data' offset =
    if leb (length data') offset
    then err truncated_header offset
    else elim (find_text crlf (drop offset data')) [
      | none ↦ err malformed_packet offset
      | some n ↦
          if n == 0
          then err malformed_packet offset
          else ok (read (take n (drop offset data'))) (offset + n + 2)
    ]

length-starts_with : (needle s : Bytes) → starts_with needle s ≡ true → length needle ≤ length s
unfolding starts_with
length-starts_with [] s h = omega arith
length-starts_with (a ∷ as') [] h = absurd cc
length-starts_with (a ∷ as') (b ∷ s) h = omega (arith, length-starts_with as' s (ground arith))

pub length-find_text :
    (needle s : Bytes) (n : ℕ) → find_text needle s ≡ some n → n + length needle ≤ length s
unfolding find_text
length-find_text needle [] n h = absurd cc
length-find_text needle (b ∷ s) n h = elim (Option-cases (find_text needle s)) [
  | inl e ↦ ground (arith, length-starts_with needle (b ∷ s))
  | inr (k, e) ↦ ground (arith, length-starts_with needle (b ∷ s), length-find_text needle s k e)
]

pub decode_line-Bounded {ℓ} :
    {A : Type ℓ} (read : Bytes → A) (data' : Bytes) (o : ℕ)
    → o ≤ length data'
    → Bounded o (length data') (decode_line read data' o)
unfolding decode_line
decode_line-Bounded read data' o h =
    Bounded-if (leb (length data') o) (λ _. fails (omega arith) h)
      λ _. at_end (find_text crlf (drop o data')) refl
  where
    at_end :
        (r : Option ℕ)
        → find_text crlf (drop o data') ≡ r
        → Bounded o (length data') (elim r [
          | none ↦ err malformed_packet o
          | some n ↦
              if n == 0
              then err malformed_packet o
              else ok (read (take n (drop o data'))) (o + n + 2)
        ])
    at_end none e = fails (omega arith) h
    at_end (some n) e =
        Bounded-if (n == 0) (λ _. fails (omega arith) h)
          λ _.
            returns (omega arith)
              (omega (arith, length-find_text crlf (drop o data') n e, length-drop o data'))
