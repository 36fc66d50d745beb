-- ===== src/Wire/Bounded.antt =====
-- Reads inside the buffer and the range of the offset: rules for each shape of the decoders' code.
use fdpi.Base.{
  ℕ, zero, suc, ◌+◌, ◌*◌, ◌≤◌, ◌<◌, ◌≡◌, refl, Bool, true, false, Option, none, some, [], ◌∷◌,
  length, take, drop, length-drop, ltb, if◌then◌else◌, arith,
}
use fdpi.Wire.{
  Error, truncated_header, Bytes, Outcome, ok, err, ◌>>=◌, and_then, or_none, at, be16, be32, le16,
  copy,
}

-- The result is no fault, and its offset lies between `lo` and `hi`.
pub data Bounded {ℓ} {A : Type ℓ} (lo hi : ℕ) : Outcome A → Type ℓ where
  returns : {a : A} {o : ℕ} → lo ≤ o → o ≤ hi → Bounded lo hi (ok a o)
  fails : {e : Error} {o : ℕ} → lo ≤ o → o ≤ hi → Bounded lo hi (err e o)

abbrev pub Readable {ℓ} : {A : Type ℓ} → Option A → Type ℓ
Readable {A} m = (a : A) × (m ≡ some a)

pub at-Readable : (p : Bytes) (i : ℕ) → i < length p → Readable (at p i)
unfolding at
at-Readable [] i h = absurd (omega arith)
at-Readable (b ∷ bs) zero h = (b, refl)
at-Readable (b ∷ bs) (suc i) h = at-Readable bs i (omega arith)

pub be16-Readable : (p : Bytes) (i : ℕ) → i + 2 ≤ length p → Readable (be16 p i)
unfolding be16
be16-Readable p i h =
    let (a, ea) = at-Readable p i (omega arith) in
    let (b, eb) = at-Readable p (i + 1) (omega arith) in (a * 256 + b, rw (ea, eb, be16))

pub le16-Readable : (p : Bytes) (i : ℕ) → i + 2 ≤ length p → Readable (le16 p i)
unfolding le16
le16-Readable p i h =
    let (a, ea) = at-Readable p i (omega arith) in
    let (b, eb) = at-Readable p (i + 1) (omega arith) in (a + b * 256, rw (ea, eb, le16))

pub be32-Readable : (p : Bytes) (i : ℕ) → i + 4 ≤ length p → Readable (be32 p i)
unfolding be32
be32-Readable p i h =
    let (a, ea) = be16-Readable p i (omega arith) in
    let (b, eb) = be16-Readable p (i + 2) (omega arith) in (a * 65536 + b, rw (ea, eb, be32))

pub copy-Readable : (p : Bytes) (i n : ℕ) → i + n ≤ length p → Readable (copy p i n)
unfolding copy
copy-Readable p i n h = (take n (drop i p), ground arith)

-- What the guard `data.size() < offset + n` leaves to read at the pointer.
pub room :
    (data' : Bytes) (o n : ℕ) → ltb (length data') (o + n) ≡ false → n ≤ length (drop o data')
room data' o n h = ground (arith, length-drop o data')

module _ {ℓ} {A : Type ℓ} {lo hi : ℕ} where
  pub Bounded-if :
      (b : Bool) {x y : Outcome A}
      → (b ≡ true → Bounded lo hi x)
      → (b ≡ false → Bounded lo hi y)
      → Bounded lo hi (if b then x else y)
  Bounded-if true t f = t refl
  Bounded-if false t f = f refl

  pub Bounded-weaken : {mid : ℕ} {m : Outcome A} → lo ≤ mid → Bounded mid hi m → Bounded lo hi m
  Bounded-weaken h (returns l u) = returns (omega arith) u
  Bounded-weaken h (fails l u) = fails (omega arith) u

  pub Bounded-read {κ} :
      {B : Type κ} (m : Option B) (f : B → Outcome A)
      → Readable m
      → ((b : B) → Bounded lo hi (f b))
      → Bounded lo hi (m >>= f)
  unfolding ◌>>=◌
  Bounded-read none f r g = cc (r.1)
  Bounded-read (some b) f r g = g b

  pub Bounded-and_then {κ} :
      {B : Type κ} (m : Outcome B) (f : B → ℕ → Outcome A) (mid : ℕ)
      → lo ≤ mid
      → Bounded mid hi m
      → ((b : B) (o : ℕ) → mid ≤ o → o ≤ hi → Bounded lo hi (f b o))
      → Bounded lo hi (and_then m f)
  unfolding and_then
  Bounded-and_then _ f mid h (returns {a = a} {o = o} l u) g = g a o l u
  Bounded-and_then _ f mid h (fails l u) g = fails (omega arith) u

  pub Bounded-or_none {κ} :
      {B : Type κ} (m : Outcome B) (f : Option B → ℕ → Outcome A) (mid : ℕ)
      → Bounded mid hi m
      → ((b : Option B) (o : ℕ) → mid ≤ o → o ≤ hi → Bounded lo hi (f b o))
      → Bounded lo hi (or_none m f)
  unfolding or_none
  Bounded-or_none _ f mid (returns {a = a} {o = o} l u) g = g (some a) o l u
  Bounded-or_none _ f mid (fails {o = o} l u) g = g none o l u

-- The guard that every decoder starts with: `n` bytes from the offset on.
pub Bounded-guard {ℓ} :
    {A : Type ℓ} (data' : Bytes) (o n : ℕ) {y : Outcome A}
    → o ≤ length data'
    → (n ≤ length (drop o data') → o + n ≤ length data' → Bounded o (length data') y)
    → Bounded o (length data') (if ltb (length data') (o + n) then err truncated_header o else y)
Bounded-guard data' o n h more =
    Bounded-if _ (λ _. fails (omega arith) h) λ fits. more (room data' o n fits) (ground arith)

-- One rule for each kind of read: the pointer has the bytes, and the rest keeps inside.
module _ {ℓ} {A : Type ℓ} {lo hi : ℕ} where
  pub Bounded-at :
      (p : Bytes) (i : ℕ) {f : ℕ → Outcome A}
      → i < length p
      → ((b : ℕ) → Bounded lo hi (f b))
      → Bounded lo hi (at p i >>= f)
  Bounded-at p i h = Bounded-read (at p i) _ (at-Readable p i h)

  pub Bounded-be16 :
      (p : Bytes) (i : ℕ) {f : ℕ → Outcome A}
      → i + 2 ≤ length p
      → ((b : ℕ) → Bounded lo hi (f b))
      → Bounded lo hi (be16 p i >>= f)
  Bounded-be16 p i h = Bounded-read (be16 p i) _ (be16-Readable p i h)

  pub Bounded-le16 :
      (p : Bytes) (i : ℕ) {f : ℕ → Outcome A}
      → i + 2 ≤ length p
      → ((b : ℕ) → Bounded lo hi (f b))
      → Bounded lo hi (le16 p i >>= f)
  Bounded-le16 p i h = Bounded-read (le16 p i) _ (le16-Readable p i h)

  pub Bounded-be32 :
      (p : Bytes) (i : ℕ) {f : ℕ → Outcome A}
      → i + 4 ≤ length p
      → ((b : ℕ) → Bounded lo hi (f b))
      → Bounded lo hi (be32 p i >>= f)
  Bounded-be32 p i h = Bounded-read (be32 p i) _ (be32-Readable p i h)

  pub Bounded-copy :
      (p : Bytes) (i n : ℕ) {f : Bytes → Outcome A}
      → i + n ≤ length p
      → ((b : Bytes) → Bounded lo hi (f b))
      → Bounded lo hi (copy p i n >>= f)
  Bounded-copy p i n h = Bounded-read (copy p i n) _ (copy-Readable p i n h)

-- A read of which the rest uses what was read.
pub Bounded-known :
    {A B : Type 0} {lo hi : ℕ} (m : Option B) (f : B → Outcome A)
    → Readable m
    → ((b : B) → m ≡ some b → Bounded lo hi (f b))
    → Bounded lo hi (m >>= f)
unfolding ◌>>=◌
Bounded-known none f r g = cc (r.1)
Bounded-known (some b) f r g = g b refl
