-- ===== src/Text.antt =====
-- Texts as lists of ASCII codes, and what src/address.cpp and src/protocol/lldp.cpp use of the C++
-- library: `std::to_string` of a byte, hexadecimal output, `std::from_chars`, `find` of a character.
pub mod Numbers
use fdpi.Base.{
  ℕ, ◌+◌, ◌-◌, ◌*◌, ◌/◌, ◌%◌, Bool, true, false, not, ◌&&◌, ◌||◌, Option, none, some, List, [], ◌∷◌,
  ◌++◌, ltb, leb, ◌==◌, if◌then◌else◌,
}
use fdpi.Wire.{Bytes}

-- A digit, in lower case.
unfoldable pub hex_digit : ℕ → ℕ
hex_digit n = if ltb n 10 then 48 + n else 87 + n

-- A byte as two digits, as by `%02x` and by `std::setw(2)` with fill '0'.
unfoldable pub hex_pair : ℕ → Bytes → Bytes
hex_pair n rest = hex_digit (n / 16 % 16) ∷ hex_digit (n % 16) ∷ rest

-- `std::to_string` of a byte.
unfoldable pub decimal : ℕ → Bytes
decimal n =
    if ltb n 10
    then (48 + n) ∷ []
    else if ltb n 100
    then (48 + n / 10) ∷ (48 + n % 10) ∷ []
    else (48 + n / 100) ∷ (48 + n / 10 % 10) ∷ (48 + n % 10) ∷ []

-- A 16-bit number in hexadecimal, without leading zeros.
unfoldable pub hexadecimal : ℕ → Bytes
hexadecimal n =
    if ltb n 16
    then hex_digit n ∷ []
    else if ltb n 256
    then hex_digit (n / 16) ∷ hex_digit (n % 16) ∷ []
    else if ltb n 4096
    then hex_digit (n / 256) ∷ hex_digit (n / 16 % 16) ∷ hex_digit (n % 16) ∷ []
    else hex_digit (n / 4096)
      ∷ hex_digit (n / 256 % 16)
      ∷ hex_digit (n / 16 % 16)
      ∷ hex_digit (n % 16)
      ∷ []

-- The value of a digit in a base up to 16, in either case.
unfoldable pub digit_value : ℕ → ℕ → Option ℕ
digit_value base c =
    if leb 48 c && leb c 57 && ltb (c - 48) base
    then some (c - 48)
    else if leb 97 c && ltb (c - 87) base
    then some (c - 87)
    else if leb 65 c && leb c 90 && ltb (c - 55) base
    then some (c - 55)
    else none

-- The longest prefix of digits: its value, and what follows.
unfoldable pub digits_from : ℕ → ℕ → Bytes → ℕ × Bytes
digits_from base acc [] = (acc, [])
digits_from base acc (c ∷ s) = elim (digit_value base c) [
  | none ↦ (acc, c ∷ s)
  | some d ↦ digits_from base (acc * base + d) s
]

unfoldable pub is_empty : Bytes → Bool
is_empty [] = true
is_empty (_ ∷ _) = false

-- `std::from_chars` into an unsigned type with `limit` values, where the caller also asks for the
-- whole range to be read: there is a digit, nothing follows the digits, and the value fits.
unfoldable pub from_chars : ℕ → ℕ → Bytes → Option ℕ
from_chars base limit [] = none
from_chars base limit (c ∷ s) =
    let (value, rest) = digits_from base 0 (c ∷ s) in
    if is_empty rest && ltb value limit then some value else none

-- What stands before and behind the first `c`.
unfoldable pub split_at : ℕ → Bytes → Option (Bytes × Bytes)
split_at c [] = none
split_at c (b ∷ s) =
    if b == c
    then some ([], s)
    else elim (split_at c s) [ none ↦ none | some (l, r) ↦ some (b ∷ l, r) ]
