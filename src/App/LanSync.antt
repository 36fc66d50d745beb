-- ===== src/App/LanSync.antt =====
-- `decodeDbLanSyncDisc` of src/protocol/dblansyncd.cpp: a few values of a JSON text. `stoul` is the part of the
-- C++ library that it uses, for a decimal number; what it throws is caught, and is `none` here.
use fdpi.Base.{
  ℕ, ◌+◌, ◌-◌, ◌*◌, ◌%◌, ◌^◌, ◌≤◌, Bool, true, false, not, ◌&&◌, ◌||◌, Option, none, some, [], ◌∷◌,
  ◌++◌, length, drop, leb, ltb, ◌==◌, if◌then◌else◌, arith,
}
use fdpi.Wire.{Bytes, Outcome, ok, err, truncated_header, malformed_packet, ◌>>=◌, at}
use fdpi.Wire.Bounded.{Bounded, returns, fails, Bounded-if, Bounded-at}
use fdpi.Text.{split_at}
use fdpi.App.Line.{find_text}
use fdpi.App.Mail.{is_digit}

-- The digits at the front.
unfoldable pub leading_digits : ℕ → Bytes → ℕ
leading_digits n [] = n
leading_digits n (c ∷ s) = if is_digit c then leading_digits (n * 10 + (c - 48)) s else n

-- At least one digit, and no more than 64 bits.
unfoldable pub unsigned_of : Bool → Bytes → Option ℕ
unsigned_of negative [] = none
unsigned_of negative (c ∷ s) =
    if not (is_digit c) || leb (2 ^ 64) (leading_digits 0 (c ∷ s))
    then none
    else some (
        if negative then (2 ^ 64 - leading_digits 0 (c ∷ s)) % 2 ^ 64 else leading_digits 0 (c ∷ s))

unfoldable pub is_space : ℕ → Bool
is_space c = c == 32 || leb 9 c && leb c 13

-- `std::stoul` and `std::stoull`: white space, a sign, and digits.
unfoldable pub stoul : Bytes → Option ℕ
stoul [] = none
stoul (c ∷ s) =
    if is_space c
    then stoul s
    else if c == 45
    then unsigned_of true s
    else if c == 43
    then unsigned_of false s
    else unsigned_of false (c ∷ s)

unfoldable pub skip_colon : Bytes → Bytes
skip_colon [] = []
skip_colon (c ∷ s) = if c == 32 || c == 58 then skip_colon s else c ∷ s

-- Up to a comma, a brace or white space.
unfoldable pub bare_value : Bytes → Bytes
bare_value [] = []
bare_value (c ∷ s) =
    if c == 44 || c == 125 || c == 32 || c == 9 || c == 10 || c == 13 then [] else c ∷ bare_value s

unfoldable pub value_of : Bytes → Option Bytes
value_of [] = none
value_of (c ∷ s) =
    if c == 34
    then elim (split_at 34 s) [ none ↦ none | some (l, _) ↦ some l ]
    else some (bare_value (c ∷ s))

-- `extractJsonValue`: the value behind the first place where the key stands in quotes.
unfoldable pub extract_json_value : Bytes → Bytes → Option Bytes
extract_json_value json key = elim (find_text ((34 ∷ key) ++ (34 ∷ [])) json) [
  | none ↦ none
  | some n ↦ value_of (skip_colon (drop (n + (length key + 2)) json))
]

-- A number of `w` bits.
unfoldable pub number_of : ℕ → Option Bytes → Option ℕ
number_of w none = none
number_of w (some s) = elim (stoul s) [ none ↦ none | some n ↦ some (n % 2 ^ w) ]

pub record DbLanSyncDisc : Type 0 where
  pub version : Option ℕ
  pub host_int : Option ℕ
  pub display_name : Option Bytes
  pub port : Option ℕ

unfoldable pub lan_sync_of : Bytes → DbLanSyncDisc
lan_sync_of json = record {
  version = number_of 32 (extract_json_value json (118 ∷ 101 ∷ 114 ∷ 115 ∷ 105 ∷ 111 ∷ 110 ∷ []));
  host_int =
      number_of 64 (extract_json_value json (104 ∷ 111 ∷ 115 ∷ 116 ∷ 95 ∷ 105 ∷ 110 ∷ 116 ∷ []));
  display_name =
      extract_json_value json (100 ∷ 105 ∷ 115 ∷ 112 ∷ 108 ∷ 97 ∷ 121 ∷ 110 ∷ 97 ∷ 109 ∷ 101 ∷ []);
  port = number_of 16 (extract_json_value json (112 ∷ 111 ∷ 114 ∷ 116 ∷ []));
}

-- The text begins with a brace; the whole rest of the data is consumed.
unfoldable pub decode_db_lan_sync_disc : Bytes → ℕ → Outcome DbLanSyncDisc
decode_db_lan_sync_disc data' offset =
    if ltb (length data') (offset + 2) then err truncated_header offset else do
      first ← at data' offset
      if not (first == 123)
          then err malformed_packet offset
          else ok (lan_sync_of (drop offset data')) (length data')

pub decode_db_lan_sync_disc-Bounded :
    (data' : Bytes) (o : ℕ)
    → o ≤ length data'
    → Bounded o (length data') (decode_db_lan_sync_disc data' o)
unfolding decode_db_lan_sync_disc
decode_db_lan_sync_disc-Bounded data' o h =
    Bounded-if (ltb (length data') (o + 2)) (λ _. fails (omega arith) h)
      λ fits. Bounded-at data' o (ground arith) λ first.
        Bounded-if (not (first == 123)) (λ _. fails (omega arith) h) λ _. returns h (omega arith)
