-- ===== src/Address/Text.antt =====
-- src/address.cpp: addresses as text. A constructor that throws `std::invalid_argument` is `none`.
use fdpi.Base.{ℕ, zero, suc, ◌||◌, Option, none, some, [], ◌∷◌, ◌++◌, length, ◌==◌, if◌then◌else◌}
use fdpi.Wire.{Bytes}
use fdpi.Text.{decimal, hex_pair, from_chars, split_at}

-- `IPv4Address(std::string_view)` from an octet on, with the number of octets behind it.
unfoldable pub octets : ℕ → Bytes → Option Bytes
octets zero s = elim (from_chars 10 256 s) [ none ↦ none | some octet ↦ some (octet ∷ []) ]
octets (suc n) s = elim (split_at 46 s) [
  | none ↦ none
  | some (first, rest) ↦ elim (from_chars 10 256 first) [
    | none ↦ none
    | some octet ↦ elim (octets n rest) [ none ↦ none | some os ↦ some (octet ∷ os) ]
  ]
]

unfoldable pub parse_ipv4 : Bytes → Option Bytes
parse_ipv4 s = octets 3 s

-- `IPv4Address::toString`
unfoldable pub print_ipv4 : Bytes → Bytes
print_ipv4 [] = []
print_ipv4 (a ∷ []) = decimal a
print_ipv4 (a ∷ b ∷ bs) = decimal a ++ (46 ∷ print_ipv4 (b ∷ bs))

-- The loop of `MacAddress(std::string_view)` behind the first byte.
unfoldable pub pairs : ℕ → ℕ → Bytes → Option Bytes
pairs zero sep s = some []
pairs (suc n) sep (c ∷ a ∷ b ∷ s) =
    if c == sep
    then elim (from_chars 16 256 (a ∷ b ∷ [])) [
      | none ↦ none
      | some v ↦ elim (pairs n sep s) [ none ↦ none | some vs ↦ some (v ∷ vs) ]
    ]
    else none
pairs (suc n) sep _ = none

-- `MacAddress(std::string_view)`, with the separator that stands behind the first byte.
unfoldable pub mac_bytes : Bytes → Option Bytes
mac_bytes (a ∷ b ∷ sep ∷ s) =
    if sep == 58 || sep == 45
    then elim (from_chars 16 256 (a ∷ b ∷ [])) [
      | none ↦ none
      | some v ↦ elim (pairs 5 sep (sep ∷ s)) [ none ↦ none | some vs ↦ some (v ∷ vs) ]
    ]
    else none
mac_bytes _ = none

unfoldable pub parse_mac : Bytes → Option Bytes
parse_mac s = if length s == 17 then mac_bytes s else none

-- `MacAddress::toString`
unfoldable pub print_mac : Bytes → Bytes
print_mac [] = []
print_mac (a ∷ []) = hex_pair a []
print_mac (a ∷ b ∷ bs) = hex_pair a (58 ∷ print_mac (b ∷ bs))
