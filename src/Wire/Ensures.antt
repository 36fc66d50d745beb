-- ===== src/Wire/Ensures.antt =====
-- What a decoder promises of its result: the family `Ensures`, with a rule for each way to build a
-- decoder's code.
use fdpi.Base.{
  some, ℕ, ◌≤◌, ◌<◌, ◌≡◌, refl, Bool, true, false, Option, none, length, ltb, if◌then◌else◌, arith,
}
use fdpi.Wire.{Error, Bytes, Outcome, ok, err, fault, ◌>>=◌, and_then, at}
use fdpi.Wire.Bounded.{Bounded, returns, fails, Readable, at-Readable}

-- The result is no fault, its offset lies between `lo` and `hi`, and a value and its offset have `Q`.
pub data Ensures {A : Type 0} (Q : A → ℕ → Type 0) (lo hi : ℕ) : Outcome A → Type 0 where
  gives : {a : A} {o : ℕ} → lo ≤ o → o ≤ hi → Q a o → Ensures Q lo hi (ok a o)
  breaks : {e : Error} {o : ℕ} → lo ≤ o → o ≤ hi → Ensures Q lo hi (err e o)

module _ {A : Type 0} {Q : A → ℕ → Type 0} {lo hi : ℕ} where
  pub Ensures-Bounded : {m : Outcome A} → Ensures Q lo hi m → Bounded lo hi m
  Ensures-Bounded (gives l u _) = returns l u
  Ensures-Bounded (breaks l u) = fails l u

  pub Ensures-if :
      (b : Bool) {x y : Outcome A}
      → (b ≡ true → Ensures Q lo hi x)
      → (b ≡ false → Ensures Q lo hi y)
      → Ensures Q lo hi (if b then x else y)
  Ensures-if true t f = t refl
  Ensures-if false t f = f refl

  pub Ensures-weaken : {mid : ℕ} {m : Outcome A} → lo ≤ mid → Ensures Q mid hi m → Ensures Q lo hi m
  Ensures-weaken h (gives l u q) = gives (omega arith) u q
  Ensures-weaken h (breaks l u) = breaks (omega arith) u

  pub Ensures-read :
      {B : Type 0} (m : Option B) (f : B → Outcome A)
      → Readable m
      → ((b : B) → m ≡ some b → Ensures Q lo hi (f b))
      → Ensures Q lo hi (m >>= f)
  unfolding ◌>>=◌
  Ensures-read none f r g = cc (r.1)
  Ensures-read (some b) f r g = g b refl

  pub Ensures-at :
      (p : Bytes) (i : ℕ) {f : ℕ → Outcome A}
      → i < length p
      → ((b : ℕ) → Ensures Q lo hi (f b))
      → Ensures Q lo hi (at p i >>= f)
  Ensures-at p i h more = Ensures-read (at p i) _ (at-Readable p i h) λ b _. more b

  -- A call, what it promises, and the rest with that promise at hand.
  pub Ensures-and_then :
      {B : Type 0} {R : B → ℕ → Type 0} (m : Outcome B) (f : B → ℕ → Outcome A) (mid : ℕ)
      → lo ≤ mid
      → Ensures R mid hi m
      → ((b : B) (o : ℕ) → mid ≤ o → o ≤ hi → R b o → Ensures Q lo hi (f b o))
      → Ensures Q lo hi (and_then m f)
  unfolding and_then
  Ensures-and_then _ f mid h (gives {a = a} {o = o} l u r) more = more a o l u r
  Ensures-and_then _ f mid h (breaks l u) more = breaks (omega arith) u

  -- A call of which only the range of its offset is used.
  pub Ensures-call :
      {B : Type 0} (m : Outcome B) (f : B → ℕ → Outcome A) (mid : ℕ)
      → lo ≤ mid
      → Bounded mid hi m
      → ((b : B) (o : ℕ) → mid ≤ o → o ≤ hi → Ensures Q lo hi (f b o))
      → Ensures Q lo hi (and_then m f)
  unfolding and_then
  Ensures-call _ f mid h (returns {a = a} {o = o} l u) more = more a o l u
  Ensures-call _ f mid h (fails l u) more = breaks (omega arith) u

-- A call, what it promises, and the range of the rest.
pub Bounded-after :
    {A B : Type 0} {R : B → ℕ → Type 0} {lo hi : ℕ} (m : Outcome B) (f : B → ℕ → Outcome A)
    (mid : ℕ)
    → lo ≤ mid
    → Ensures R mid hi m
    → ((b : B) (o : ℕ) → mid ≤ o → o ≤ hi → R b o → Bounded lo hi (f b o))
    → Bounded lo hi (and_then m f)
unfolding and_then
Bounded-after _ f mid h (gives {a = a} {o = o} l u r) more = more a o l u r
Bounded-after _ f mid h (breaks l u) more = fails (omega arith) u

-- A loop that always ends in a result, at `hi` or before.
pub data Succeeds {A : Type 0} (hi : ℕ) : Outcome A → Type 0 where
  succeeds : {a : A} {o : ℕ} → o ≤ hi → Succeeds hi (ok a o)

module _ {A : Type 0} {hi : ℕ} where
  pub Succeeds-if :
      (b : Bool) {x y : Outcome A}
      → (b ≡ true → Succeeds hi x)
      → (b ≡ false → Succeeds hi y)
      → Succeeds hi (if b then x else y)
  Succeeds-if true t f = t refl
  Succeeds-if false t f = f refl

  pub Succeeds-read :
      {B : Type 0} (m : Option B) {f : B → Outcome A}
      → Readable m
      → ((b : B) → Succeeds hi (f b))
      → Succeeds hi (m >>= f)
  unfolding ◌>>=◌
  Succeeds-read none r g = cc (r.1)
  Succeeds-read (some b) r g = g b

  pub Succeeds-after :
      {B : Type 0} {top : ℕ} {m : Outcome A} {f : A → ℕ → Outcome B}
      → Succeeds hi m
      → ((a : A) (o : ℕ) → o ≤ hi → Succeeds top (f a o))
      → Succeeds top (and_then m f)
  unfolding and_then
  Succeeds-after (succeeds {a = a} {o = o} u) more = more a o u

  pub Succeeds-Bounded : {m : Outcome A} → Succeeds hi m → Bounded 0 hi m
  Succeeds-Bounded (succeeds u) = returns (omega arith) u

  pub Bounded-Succeeds :
      {B : Type 0} {lo top : ℕ} {m : Outcome A} {f : A → ℕ → Outcome B}
      → Succeeds hi m
      → ((a : A) (o : ℕ) → o ≤ hi → Bounded lo top (f a o))
      → Bounded lo top (and_then m f)
  unfolding and_then
  Bounded-Succeeds (succeeds {a = a} {o = o} u) more = more a o u

-- A result's offset is at most `hi`; an error or a read outside the buffer has no result.
pub data Ends {A : Type 0} (hi : ℕ) : Outcome A → Type 0 where
  ends : {a : A} {o : ℕ} → o ≤ hi → Ends hi (ok a o)
  stops : {e : Error} {o : ℕ} → Ends hi (err e o)
  faults : Ends hi fault

module _ {A : Type 0} {hi : ℕ} where
  pub Ends-Bounded : {lo : ℕ} {m : Outcome A} → Bounded lo hi m → Ends hi m
  Ends-Bounded (returns _ u) = ends u
  Ends-Bounded (fails _ _) = stops

  pub Ends-Succeeds : {m : Outcome A} → Succeeds hi m → Ends hi m
  Ends-Succeeds (succeeds u) = ends u

  pub Ends-if :
      (b : Bool) {x y : Outcome A}
      → (b ≡ true → Ends hi x)
      → (b ≡ false → Ends hi y)
      → Ends hi (if b then x else y)
  Ends-if true t f = t refl
  Ends-if false t f = f refl

  pub Ends-read :
      {B : Type 0} (m : Option B) {f : B → Outcome A}
      → ((b : B) → Ends hi (f b))
      → Ends hi (m >>= f)
  unfolding ◌>>=◌
  Ends-read none g = faults
  Ends-read (some b) g = g b

  pub Ends-and_then :
      {B : Type 0} (m : Outcome B) {f : B → ℕ → Outcome A}
      → ((b : B) (o : ℕ) → Ends hi (f b o))
      → Ends hi (and_then m f)
  unfolding and_then
  Ends-and_then (ok b o) g = g b o
  Ends-and_then (err e o) g = stops
  Ends-and_then fault g = faults

  pub Ends-after :
      {B : Type 0} {m : Outcome B} {f : B → ℕ → Outcome A}
      → Ends hi m
      → ((b : B) (o : ℕ) → o ≤ hi → Ends hi (f b o))
      → Ends hi (and_then m f)
  unfolding and_then
  Ends-after (ends {a = a} {o = o} u) g = g a o u
  Ends-after stops g = stops
  Ends-after faults g = faults

-- What a guard on the end of the buffer leaves.
pub ltb-eq_false : (a b : ℕ) → ltb a b ≡ false → b ≤ a
ltb-eq_false a b h = ground arith

pub ruleset ends_rules = (ends, stops, faults, Ends-if, Ends-read, Ends-and_then)
