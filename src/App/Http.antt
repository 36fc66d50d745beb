-- ===== src/App/Http.antt =====
-- `decodeHttp` of src/protocol/http.cpp and `decodeSsdp` of src/protocol/ssdp.cpp. `text` is what the data has
-- from the offset on. An `int` status that overflows is kept by its low bits, as `uint16_t` does.
pub mod Bounds
pub mod HeaderLines
pub mod RoundTrip
use fdpi.Base.{
  ℕ, zero, suc, ◌+◌, ◌-◌, ◌*◌, ◌%◌, ◌^◌, Bool, true, false, not, ◌&&◌, ◌||◌, Option, none, some,
  List, [], ◌∷◌, ◌++◌, length, take, drop, leb, ltb, ◌==◌, if◌then◌else◌,
}
use fdpi.Wire.{Bytes, Outcome, ok, err, truncated_header, malformed_packet}
use fdpi.Text.{split_at}
use fdpi.App.Line.{starts_with, find_text, crlf}

abbrev pub Headers : Type 0
Headers = List (Bytes × Bytes)

pub record Http : Type 0 where
  pub is_request : Bool
  pub method : Bytes
  pub uri : Bytes
  pub status_code : ℕ
  pub version : Bytes
  pub headers : Headers

-- `HTTP/`
abbrev pub http_slash : Bytes
http_slash = 72 ∷ 84 ∷ 84 ∷ 80 ∷ 47 ∷ []

-- A number in digits; any other byte is refused.
unfoldable pub status_of : ℕ → Bytes → Option ℕ
status_of code [] = some (code % 2 ^ 16)
status_of code (c ∷ s) = if leb 48 c && leb c 57 then status_of (code * 10 + (c - 48)) s else none

-- Up to the next space, or to the end.
unfoldable pub word_of : Bytes → Bytes
word_of s = elim (split_at 32 s) [ none ↦ s | some (l, _) ↦ l ]

unfoldable pub http_response : Bytes → Option Http
http_response line = elim (split_at 32 line) [
  | none ↦ none
  | some (l, r) ↦ elim (status_of 0 (word_of r)) [
    | none ↦ none
    | some code ↦ some (record {
      is_request = false;
      method = [];
      uri = [];
      status_code = code;
      version = drop 5 l;
      headers = [];
    })
  ]
]

-- All bytes lie between two.
unfoldable pub all_within : ℕ → ℕ → Bytes → Bool
all_within lo hi [] = true
all_within lo hi (c ∷ s) = leb lo c && leb c hi && all_within lo hi s

-- A method of capitals, a URI of visible characters and a version.
unfoldable pub request_of : Bytes → Bytes → Bytes → Option Http
request_of method uri version =
    if length method == 0
      || not (all_within 65 90 method)
      || not (all_within 33 126 uri)
      || not (starts_with http_slash version)
    then none
    else some (record {
      is_request = true;
      method = method;
      uri = uri;
      status_code = 0;
      version = drop 5 version;
      headers = [];
    })

unfoldable pub http_request : Bytes → Option Http
http_request line = elim (split_at 32 line) [
  | none ↦ none
  | some (method, r) ↦ elim (split_at 32 r) [
    | none ↦ none
    | some (uri, version) ↦ request_of method uri version
  ]
]

unfoldable pub http_start : Bytes → Option Http
http_start line = if starts_with http_slash line then http_response line else http_request line

unfoldable pub without_spaces : Bytes → Bytes
without_spaces [] = []
without_spaces (c ∷ s) = if c == 32 then without_spaces s else c ∷ s

-- A line without a colon is passed over.
unfoldable pub header_of : Bytes → Headers
header_of line = elim (split_at 58 line) [
  | none ↦ []
  | some (key, value) ↦ (key, without_spaces value) ∷ []
]

-- The lines up to an empty one, on fuel: each takes two bytes at least.
unfoldable pub header_lines : ℕ → Bytes → ℕ → Headers × ℕ
header_lines zero text pos = ([], pos)
header_lines (suc fuel) text pos = elim (find_text crlf (drop pos text)) [
  | none ↦ ([], pos)
  | some n ↦
      let (headers, end) = header_lines fuel text (pos + n + 2) in
      if n == 0 then ([], pos + 2) else (header_of (take n (drop pos text)) ++ headers, end)
]

unfoldable pub http_message : ℕ → Bytes → ℕ → Option Http → Outcome Http
http_message offset text n none = err malformed_packet offset
http_message offset text n (some msg) =
    let (headers, pos) = header_lines (length text) text (n + 2) in
    ok (record msg { headers = headers }) (offset + pos)

unfoldable pub decode_http : Bytes → ℕ → Outcome Http
decode_http data' offset =
    if leb (length data') offset
    then err truncated_header offset
    else elim (find_text crlf (drop offset data')) [
      | none ↦ err malformed_packet offset
      | some n ↦ http_message offset (drop offset data') n (http_start (take n (drop offset data')))
    ]

pub record Ssdp : Type 0 where
  pub is_request : Bool
  pub method : Bytes
  pub uri : Bytes
  pub status_code : ℕ
  pub headers : Headers

-- The digits among three characters.
unfoldable pub digits_among : ℕ → Bytes → ℕ
digits_among code [] = code
digits_among code (c ∷ s) =
    if leb 48 c && leb c 57
    then digits_among ((code * 10 + (c - 48)) % 2 ^ 16) s
    else digits_among code s

unfoldable pub ssdp_response : Bytes → Ssdp
ssdp_response line = record {
  is_request = false;
  method = [];
  uri = [];
  status_code = elim (split_at 32 line) [
    | none ↦ 0
    | some (_, r) ↦ if ltb (length r) 2 then 0 else digits_among 0 (take 3 r)
  ];
  headers = [];
}

unfoldable pub ssdp_words : Bytes → Bytes × Bytes
ssdp_words line = elim (split_at 32 line) [
  | none ↦ ([], [])
  | some (method, r) ↦ elim (split_at 32 r) [ none ↦ (method, []) | some (uri, _) ↦ (method, uri) ]
]

unfoldable pub ssdp_start : Bytes → Ssdp
ssdp_start line = if starts_with http_slash line then ssdp_response line else record {
  is_request = true;
  method = (ssdp_words line).0;
  uri = (ssdp_words line).1;
  status_code = 0;
  headers = [];
}

-- The whole rest of the data is consumed.
unfoldable pub decode_ssdp : Bytes → ℕ → Outcome Ssdp
decode_ssdp data' offset =
    if leb (length data') offset
    then err truncated_header offset
    else elim (find_text crlf (drop offset data')) [
      | none ↦ err malformed_packet offset
      | some n ↦
          ok
            (record (ssdp_start (take n (drop offset data'))) {
              headers = (header_lines (length (drop offset data')) (drop offset data') (n + 2)).0;
            })
            (length data')
    ]
