-- ===== src/Wire.antt =====
-- The byte buffers that the decoders read (`std::span<const uint8_t>`), the error codes of
-- include/fdpi/error.hpp, and what a call of a decoder does to its by-reference offset.
-- `const uint8_t* p = data.data() + offset` is the rest of the buffer from `offset` on, and
-- `p[i]` is `at p i`: a read past the end of the buffer is `none`, and a decoder that makes it is
-- at `fault`. A field that the sources put together by shifts and `|` from bytes is a sum, since
-- the bits of its parts do not meet.
pub mod Bounded
pub mod Ensures
pub mod Reads
use fdpi.Base.{
  ℕ, zero, suc, ◌+◌, ◌*◌, ◌≤◌, Bool, Option, none, some, List, [], ◌∷◌, take, drop, length, leb,
  if◌then◌else◌,
}

-- `enum class Error`.
pub data Error : Type 0 where
  truncated_header invalid_checksum unsupported_protocol reassembly_timeout : Error
  malformed_packet buffer_too_small max_flows_reached invalid_header_length : Error
  fragment_overlap stream_limit_exceeded unsupported_data_link : Error

abbrev pub Bytes : Type 0
Bytes = List ℕ

-- The result of a decoder: `std::expected<A, Error>` with the offset that it leaves behind, on
-- success and on an error, or a read outside the buffer.
pub data Outcome {ℓ} (A : Type ℓ) : Type ℓ where
  ok : A → ℕ → Outcome A
  err : Error → ℕ → Outcome A
  fault : Outcome A

-- A read of the buffer, in a `do` block.
infixl 5 ◌>>=◌
unfoldable pub ◌>>=◌ {ℓ κ} : {A : Type ℓ} {B : Type κ} → Option A → (A → Outcome B) → Outcome B
none >>= f = fault
some a >>= f = f a

-- A call of another decoder: its error is returned, with the offset as that call left it.
unfoldable pub and_then {ℓ κ} :
    {A : Type ℓ} {B : Type κ} → Outcome A → (A → ℕ → Outcome B) → Outcome B
and_then (ok a o) f = f a o
and_then (err e o) f = err e o
and_then fault f = fault

-- A call of another decoder whose error is passed over: the rest runs from the offset that the
-- call left, with what it decoded or without.
unfoldable pub or_none {ℓ κ} :
    {A : Type ℓ} {B : Type κ} → Outcome A → (Option A → ℕ → Outcome B) → Outcome B
or_none (ok a o) f = f (some a) o
or_none (err e o) f = f none o
or_none fault f = fault

-- `p[i]`.
unfoldable pub at : Bytes → ℕ → Option ℕ
at [] i = none
at (b ∷ bs) zero = some b
at (b ∷ bs) (suc i) = at bs i

-- Two and four bytes, the most significant first.
unfoldable pub be16 : Bytes → ℕ → Option ℕ
be16 p i = elim (at p i) [
  | none ↦ none
  | some a ↦ elim (at p (i + 1)) [ none ↦ none | some b ↦ some (a * 256 + b) ]
]

unfoldable pub be32 : Bytes → ℕ → Option ℕ
be32 p i = elim (be16 p i) [
  | none ↦ none
  | some a ↦ elim (be16 p (i + 2)) [ none ↦ none | some b ↦ some (a * 65536 + b) ]
]

-- Two bytes, the least significant first.
unfoldable pub le16 : Bytes → ℕ → Option ℕ
le16 p i = elim (at p i) [
  | none ↦ none
  | some a ↦ elim (at p (i + 1)) [ none ↦ none | some b ↦ some (a + b * 256) ]
]

-- A copy of `n` bytes from `p + i` on.
unfoldable pub copy : Bytes → ℕ → ℕ → Option Bytes
copy p i n = if leb (i + n) (length p) then some (take n (drop i p)) else none
