-- ===== src/Address/Ipv6.antt =====
-- src/address.cpp: IPv6 addresses as text. A constructor that throws `std::invalid_argument` is
-- `none`.
pub mod Splitting
pub mod RoundTrip
pub mod Printing
pub mod Zeros
use fdpi.Base.{
  ◌-◌, not, ◌%◌, ◌++◌, length, suc, ◌&&◌, leb, ◌/◌, none, ◌*◌, ◌+◌, some, ltb, [], ◌==◌, List,
  if◌then◌else◌, Option, ◌∷◌, zero, ℕ,
}
use fdpi.Wire.{Bytes}
use fdpi.Text.{hexadecimal, from_chars}

-- What stands before and behind the first `::`.
unfoldable pub split_double : Bytes → Option (Bytes × Bytes)
split_double [] = none
split_double (c ∷ []) = none
split_double (c ∷ d ∷ s) =
    if c == 58 && d == 58
    then some ([], s)
    else elim (split_double (d ∷ s)) [ none ↦ none | some (l, r) ↦ some (c ∷ l, r) ]

-- The parts between the colons.
unfoldable pub colon_parts : Bytes → Bytes × List Bytes
colon_parts [] = ([], [])
colon_parts (c ∷ s) =
    let (first, others) = colon_parts s in
    if c == 58 then ([], first ∷ others) else (c ∷ first, others)

-- `parseHexGroup` of each part.
unfoldable pub hex_groups : List Bytes → Option (List ℕ)
hex_groups [] = some []
hex_groups (part ∷ parts) = elim (from_chars 16 65536 part) [
  | none ↦ none
  | some g ↦ elim (hex_groups parts) [ none ↦ none | some gs ↦ some (g ∷ gs) ]
]

unfoldable pub parse_groups : Bytes → Option (List ℕ)
parse_groups [] = some []
parse_groups (c ∷ s) = let (first, others) = colon_parts (c ∷ s) in hex_groups (first ∷ others)

-- The bytes of the groups.
unfoldable pub write_groups : List ℕ → Bytes
write_groups [] = []
write_groups (g ∷ gs) = (g / 256 % 256) ∷ (g % 256) ∷ write_groups gs

unfoldable pub zeros : ℕ → List ℕ
zeros zero = []
zeros (suc n) = 0 ∷ zeros n

-- `IPv6Address(std::string_view)`
unfoldable pub parse_ipv6 : Bytes → Option Bytes
parse_ipv6 s = elim (split_double s) [
  | none ↦ elim (parse_groups s) [
    | none ↦ none
    | some left ↦ if length left == 8 then some (write_groups left) else none
  ]
  | some (l, r) ↦ elim (parse_groups l) [
    | none ↦ none
    | some left ↦ elim (parse_groups r) [
      | none ↦ none
      | some right ↦
          if leb (length left + length right) 8
          then some (write_groups (left ++ (zeros (8 - (length left + length right)) ++ right)))
          else none
    ]
  ]
]

-- The groups of the bytes.
unfoldable pub read_groups : Bytes → List ℕ
read_groups [] = []
read_groups (a ∷ []) = []
read_groups (a ∷ b ∷ s) = (a * 256 + b) ∷ read_groups s

-- The run of zeros that the loop is in, and the longest so far. A run of no groups is none.
pub record Runs : Type 0 where
  pub cur_start : ℕ
  pub cur_len : ℕ
  pub best_start : ℕ
  pub best_len : ℕ

unfoldable pub keep_best : Runs → Runs
keep_best r =
    if ltb r.best_len r.cur_len
    then record r { best_start = r.cur_start; best_len = r.cur_len }
    else r

-- One round of the loop, at group `g` with number `i`.
unfoldable pub see_group : ℕ → ℕ → Runs → Runs
see_group i g r =
    if g == 0
    then keep_best (record r {
      cur_start = if r.cur_len == 0 then i else r.cur_start;
      cur_len = r.cur_len + 1;
    })
    else record r { cur_start = 0; cur_len = 0 }

unfoldable pub find_zeros : ℕ → Runs → List ℕ → Runs
find_zeros i r [] = r
find_zeros i r (g ∷ gs) = find_zeros (i + 1) (see_group i g r) gs

abbrev pub no_runs : Runs
no_runs = record { cur_start = 0; cur_len = 0; best_start = 0; best_len = 0 }

-- The groups from number `i` on, where `len` groups from `start` on are written as `::`.
unfoldable pub compressed : ℕ → ℕ → ℕ → List ℕ → Bytes
compressed start len i [] = []
compressed start len i (g ∷ gs) =
    let rest = compressed start len (i + 1) gs in
    if i == start
    then 58 ∷ 58 ∷ rest
    else if leb start i && ltb i (start + len)
    then rest
    else if ltb 0 i && not (i == start + len)
    then 58 ∷ (hexadecimal g ++ rest)
    else hexadecimal g ++ rest

-- The groups from number `i` on, one by one.
unfoldable pub uncompressed : ℕ → List ℕ → Bytes
uncompressed i [] = []
uncompressed i (g ∷ gs) =
    let rest = uncompressed (i + 1) gs in
    if ltb 0 i then 58 ∷ (hexadecimal g ++ rest) else hexadecimal g ++ rest

-- `IPv6Address::toString`. A run of one group is not compressed.
unfoldable pub print_ipv6 : Bytes → Bytes
print_ipv6 bytes =
    let groups = read_groups bytes in
    let runs = find_zeros 0 no_runs groups in
    if ltb runs.best_len 2
    then uncompressed 0 groups
    else compressed runs.best_start runs.best_len 0 groups
