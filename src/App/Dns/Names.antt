-- ===== src/App/Dns/Names.antt =====
-- The reads of `decodeName` of src/protocol/dns.cpp, and where it ends.
use fdpi.Base.{
  if-elim, ℕ, zero, suc, ◌+◌, ◌*◌, ◌/◌, ◌%◌, ◌≤◌, ◌<◌, ◌≡◌, refl, ap, ◌∙◌, Bool, true, false, not,
  Option, none, some, [], ◌∷◌, length, ltb, leb, ◌==◌, arith, if◌then◌else◌, if_true, if_false,
}
use fdpi.Wire.{Bytes, Error, Outcome, ok, err, fault, ◌>>=◌, at, copy}
use fdpi.Wire.Bounded.{Readable, at-Readable, copy-Readable}
use fdpi.App.Dns.{
  Cursor, Round, goes_on, ended, follow_pointer, read_label, name_round, end_name, name_loop,
  decode_name, at_pos, after,
}

-- A call that does not read outside the buffer, and what holds of its result.
pub data Sound {A : Type 0} (P : A → ℕ → Type 0) : Outcome A → Type 0 where
  sound : {a : A} {o : ℕ} → P a o → Sound P (ok a o)
  refuses : {e : Error} {o : ℕ} → Sound P (err e o)

-- The same of a call that may not end.
pub data Partial {A : Type 0} (P : A → ℕ → Type 0) : Option (Outcome A) → Type 0 where
  runs_on : Partial P none
  ends : {m : Outcome A} → Sound P m → Partial P (some m)

pub Sound-if :
    {A : Type 0} {P : A → ℕ → Type 0} (b : Bool) {x y : Outcome A}
    → (b ≡ true → Sound P x)
    → (b ≡ false → Sound P y)
    → Sound P (if b then x else y)
Sound-if true f g = f refl
Sound-if false f g = g refl

pub Sound-read :
    {A B : Type 0} {P : A → ℕ → Type 0} (m : Option B) {f : B → Outcome A}
    → Readable m
    → ((b : B) → Sound P (f b))
    → Sound P (m >>= f)
unfolding ◌>>=◌
Sound-read none r g = cc (r.1)
Sound-read (some b) r g = g b

pub Partial-after :
    {A B : Type 0} {P : A → ℕ → Type 0} {Q : B → ℕ → Type 0} {m : Option (Outcome A)}
    → {f : A → ℕ → Option (Outcome B)} → Partial P m
    → ((a : A) (o : ℕ) → P a o → Partial Q (f a o))
    → Partial Q (after m f)
unfolding after
Partial-after runs_on g = runs_on
Partial-after (ends (sound p)) g = g _ _ p
Partial-after (ends refuses) g = ends refuses

-- The position stays inside the buffer, and behind `lo` unless the loop has jumped; then the
-- position to go on from is behind `lo`.
pub record IsInside (lo hi : ℕ) (c : Cursor) : Type 0 where
  pub inside : c.pos ≤ hi
  pub onwards : c.jumped ≡ false → lo ≤ c.pos
  pub saved : c.jumped ≡ true → (lo ≤ c.saved_pos) × (c.saved_pos ≤ hi)

abbrev pub cursor_of : Round → Cursor
cursor_of (goes_on c) = c
cursor_of (ended c) = c

-- The offset that a call leaves is behind `lo` and not behind the end of the buffer.
abbrev pub Within : {A : Type 0} → ℕ → ℕ → A → ℕ → Type 0
Within lo hi _ o = (lo ≤ o) × (o ≤ hi)

module _ (data' : Bytes) (dns_start lo : ℕ) (c : Cursor) (i : IsInside lo (length data') c) where
  abbrev Keeps : Round → ℕ → Type 0
  Keeps r _ = IsInside lo (length data') (cursor_of r)

  follow_pointer-Sound : (len : ℕ) → Sound Keeps (follow_pointer data' dns_start c len)
  unfolding follow_pointer
  follow_pointer-Sound len =
      Sound-if (leb (length data') (c.pos + 1)) (λ _. refuses)
        λ more.
          Sound-read (at data' (c.pos + 1)) (at-Readable data' (c.pos + 1) (ground arith)) λ b.
            Sound-if (leb (length data') (dns_start + (len % 64 * 256 + b))) (λ _. refuses)
              λ fits. sound (record {
                inside = ground arith;
                onwards = λ n. absurd cc;
                saved = λ _. ground (arith, i.saved, i.onwards);
              })

  read_label-Sound : (len : ℕ) → Sound Keeps (read_label data' c len)
  unfolding read_label
  read_label-Sound len =
      Sound-if (ltb (length data') (c.pos + 1 + len)) (λ _. refuses)
        λ fits.
          Sound-read (copy data' (c.pos + 1) len)
            (copy-Readable data' (c.pos + 1) len (ground arith))
            λ _. sound (record {
              inside = ground arith;
              onwards = λ n. omega (arith, i.onwards n);
              saved = i.saved;
            })

  name_round-Sound : Sound Keeps (name_round data' dns_start c)
  unfolding name_round
  name_round-Sound =
      Sound-if (leb (length data') c.pos) (λ _. sound i)
        λ more. Sound-read (at data' c.pos) (at-Readable data' c.pos (ground arith)) λ len.
          Sound-if (len == 0)
            (λ _. sound (
              if-elim {A = Cursor} (IsInside lo (length data')) c.jumped (λ _. i)
                λ n. record {
                  inside = ground arith;
                  onwards = λ n. omega (arith, i.onwards n);
                  saved = i.saved;
                }))
            λ _.
              Sound-if (len / 64 % 4 == 3) (λ _. follow_pointer-Sound len)
                λ _. Sound-if (not (len / 64 % 4 == 0)) (λ _. refuses) λ _. read_label-Sound len

end_name-Sound : (lo hi : ℕ) (c : Cursor) → IsInside lo hi c → Sound (Within lo hi) (end_name c)
unfolding end_name
end_name-Sound lo hi c i =
    sound (if-elim {A = ℕ} (λ o. (lo ≤ o) × (o ≤ hi)) c.jumped i.saved λ n. (i.onwards n, i.inside))

-- What follows a round.
next_round-Partial :
    {lo hi : ℕ} (m : Outcome Round) {rest : Cursor → Option (Outcome Bytes)}
    → Sound (λ r _. IsInside lo hi (cursor_of r)) m
    → ((c : Cursor) → IsInside lo hi c → Partial (Within lo hi) (rest c))
    → Partial (Within lo hi) (elim m [
      | fault ↦ some fault
      | err e o ↦ some (err e o)
      | ok (ended c) _ ↦ some (end_name c)
      | ok (goes_on c) _ ↦ rest c
    ])
next_round-Partial (ok (goes_on c) o) (sound k) g = g c k
next_round-Partial {lo} {hi} (ok (ended c) o) (sound k) g = ends (end_name-Sound lo hi c k)
next_round-Partial (err e o) refuses g = ends refuses
next_round-Partial fault s g = elim s [ ]

name_loop-Partial :
    (fuel : ℕ) (data' : Bytes) (dns_start lo : ℕ) (c : Cursor)
    → IsInside lo (length data') c
    → Partial (Within lo (length data')) (name_loop fuel data' dns_start c)
unfolding name_loop
name_loop-Partial zero data' dns_start lo c i = runs_on
name_loop-Partial (suc fuel) data' dns_start lo c i =
    next_round-Partial (name_round data' dns_start c) (name_round-Sound data' dns_start lo c i)
      (name_loop-Partial fuel data' dns_start lo)

pub decode_name-Partial :
    (fuel : ℕ) (data' : Bytes) (dns_start pos : ℕ)
    → pos ≤ length data'
    → Partial (Within pos (length data')) (decode_name fuel data' dns_start pos)
unfolding decode_name
decode_name-Partial fuel data' dns_start pos h =
    name_loop-Partial fuel data' dns_start pos (at_pos pos)
      (record { inside = h; onwards = λ _. omega arith; saved = λ n. absurd cc })

at-lt : (p : Bytes) (i a : ℕ) → at p i ≡ some a → i < length p
unfolding at
at-lt [] i a h = cc
at-lt (b ∷ bs) zero a h = omega arith
at-lt (b ∷ bs) (suc i) a h = omega (arith, at-lt bs i a h)

-- A pointer to itself.
module _ (data' : Bytes) (dns_start pos a b : ℕ) (first : at data' pos ≡ some a)
    (second : at data' (pos + 1) ≡ some b) (pointer : a / 64 % 4 ≡ 3)
    (itself : dns_start + (a % 64 * 256 + b) ≡ pos) where
  follow_pointer_itself :
      (c : Cursor)
      → c.pos ≡ pos
      → (c' : Cursor) × (follow_pointer data' dns_start c a ≡ ok (goes_on c') 0) × (c'.pos ≡ pos)
  unfolding follow_pointer ◌>>=◌
  follow_pointer_itself c e =
      let here : at data' (c.pos + 1) ≡ some b = ap (λ k. at data' (k + 1)) e ∙ second in
      (
        record c {
          pos = dns_start + (a % 64 * 256 + b);
          jumped = true;
          saved_pos = if c.jumped then c.saved_pos else c.pos + 2;
        },
        if_false (leb (length data') (c.pos + 1)) _ _
              (ground (arith, at-lt data' (c.pos + 1) b here))
            ∙ rw here (
                if_false (leb (length data') (dns_start + (a % 64 * 256 + b))) _ _
                  (ground (arith, at-lt data' pos a first))),
        itself,
      )

  name_round_itself :
      (c : Cursor)
      → c.pos ≡ pos
      → (c' : Cursor) × (name_round data' dns_start c ≡ ok (goes_on c') 0) × (c'.pos ≡ pos)
  unfolding name_round ◌>>=◌
  name_round_itself c e =
      let here : at data' c.pos ≡ some a = ap (at data') e ∙ first in
      let (c', followed, same) = follow_pointer_itself c e in
      (
        c',
        if_false (leb (length data') c.pos) _ _ (ground (arith, at-lt data' c.pos a here))
            ∙ rw here (
                if_false (a == 0) _ _ (ground arith)
                ∙ if_true (a / 64 % 4 == 3) _ _ (ground arith)
                ∙ followed),
        same,
      )

  name_loop_itself : (fuel : ℕ) (c : Cursor) → c.pos ≡ pos → name_loop fuel data' dns_start c ≡ none
  unfolding name_loop
  name_loop_itself zero c e = refl
  name_loop_itself (suc fuel) c e =
      let (c', round, same) = name_round_itself c e in
      rw (round, name_loop) (name_loop_itself fuel c' same)

  -- A name that begins with a compression pointer to itself is decoded for ever: no number of
  -- rounds is enough.
  pub decode_name_itself : (fuel : ℕ) → decode_name fuel data' dns_start pos ≡ none
  unfolding decode_name
  decode_name_itself fuel = name_loop_itself fuel (at_pos pos) refl

pub Sound-weaken :
    {A : Type 0} {lo mid hi : ℕ} {m : Outcome A}
    → lo ≤ mid
    → Sound (Within mid hi) m
    → Sound (Within lo hi) m
Sound-weaken h (sound w) = sound (omega (arith, h, w), w.1)
Sound-weaken h refuses = refuses
