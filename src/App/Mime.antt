-- ===== src/App/Mime.antt =====
-- `decodeImf` of src/protocol/imf.cpp: the headers of a mail, with their folded lines.
pub mod Bounds
use fdpi.Base.{
  ℕ, zero, suc, ◌+◌, Bool, true, false, not, ◌&&◌, ◌||◌, Option, none, some, List, [], ◌∷◌, ◌++◌,
  length, take, drop, leb, ltb, ◌==◌, if◌then◌else◌,
}
use fdpi.Wire.{Bytes, Outcome, ok, err, truncated_header, malformed_packet}
use fdpi.Text.{split_at}
use fdpi.Address.{bytes_eq}
use fdpi.App.Line.{find_text, crlf}
use fdpi.App.Http.{Headers, without_spaces}

pub record Imf : Type 0 where
  pub from : Bytes
  pub to : Bytes
  pub subject : Bytes
  pub date : Bytes
  pub message_id : Bytes
  pub content_type : Bytes
  pub headers : Headers

-- The header that is being read, which is none while its name is empty.
pub record Current : Type 0 where
  pub name : Bytes
  pub value : Bytes

abbrev pub no_header : Current
no_header = record { name = []; value = [] }

abbrev pub no_headers : Imf
no_headers = record {
  from = [];
  to = [];
  subject = [];
  date = [];
  message_id = [];
  content_type = [];
  headers = [];
}

-- The fields with a place of their own.
unfoldable pub named_field : Bytes → Bytes → Imf → Imf
named_field name value hdr =
    if bytes_eq name (70 ∷ 114 ∷ 111 ∷ 109 ∷ []) || bytes_eq name (102 ∷ 114 ∷ 111 ∷ 109 ∷ [])
    then record hdr { from = value }
    else if bytes_eq name (84 ∷ 111 ∷ []) || bytes_eq name (116 ∷ 111 ∷ [])
    then record hdr { to = value }
    else if bytes_eq name (83 ∷ 117 ∷ 98 ∷ 106 ∷ 101 ∷ 99 ∷ 116 ∷ [])
        || bytes_eq name (115 ∷ 117 ∷ 98 ∷ 106 ∷ 101 ∷ 99 ∷ 116 ∷ [])
    then record hdr { subject = value }
    else if bytes_eq name (68 ∷ 97 ∷ 116 ∷ 101 ∷ []) || bytes_eq name (100 ∷ 97 ∷ 116 ∷ 101 ∷ [])
    then record hdr { date = value }
    else if bytes_eq name (77 ∷ 101 ∷ 115 ∷ 115 ∷ 97 ∷ 103 ∷ 101 ∷ 45 ∷ 73 ∷ 68 ∷ [])
        || bytes_eq name (77 ∷ 101 ∷ 115 ∷ 115 ∷ 97 ∷ 103 ∷ 101 ∷ 45 ∷ 73 ∷ 100 ∷ [])
        || bytes_eq name (109 ∷ 101 ∷ 115 ∷ 115 ∷ 97 ∷ 103 ∷ 101 ∷ 45 ∷ 105 ∷ 100 ∷ [])
    then record hdr { message_id = value }
    else if bytes_eq name (67 ∷ 111 ∷ 110 ∷ 116 ∷ 101 ∷ 110 ∷ 116 ∷ 45 ∷ 84 ∷ 121 ∷ 112 ∷ 101 ∷ [])
        || bytes_eq name (99 ∷ 111 ∷ 110 ∷ 116 ∷ 101 ∷ 110 ∷ 116 ∷ 45 ∷ 116 ∷ 121 ∷ 112 ∷ 101 ∷ [])
    then record hdr { content_type = value }
    else hdr

-- `storeHeader`
unfoldable pub store_header : Current → Imf → Imf
store_header current hdr =
    if length current.name == 0 then hdr else record (named_field current.name current.value hdr) {
      headers = hdr.headers ++ ((current.name, current.value) ∷ []);
    }

-- Spaces and tabs at the front.
unfoldable pub without_blanks : Bytes → Bytes
without_blanks [] = []
without_blanks (c ∷ s) = if c == 32 || c == 9 then without_blanks s else c ∷ s

unfoldable pub starts_blank : Bytes → Bool
starts_blank [] = false
starts_blank (c ∷ _) = c == 32 || c == 9

unfoldable pub new_header : Bytes → Current
new_header line = elim (split_at 58 line) [
  | none ↦ no_header
  | some (name, value) ↦ record { name = name; value = without_spaces value }
]

-- A line that is not empty: it goes on with the header before it, or begins one.
unfoldable pub imf_line : Bytes → Current → Imf → Current × Imf
imf_line line current hdr =
    if starts_blank line && not (length current.name == 0)
    then (record current { value = current.value ++ 32 ∷ [] ++ without_blanks line }, hdr)
    else (new_header line, store_header current hdr)

-- The loop over the lines, on fuel: each round but the last takes two bytes at least. The text may end
-- within a line.
unfoldable pub imf_lines : ℕ → Bytes → Current → Imf → Imf
imf_lines zero text current hdr = store_header current hdr
imf_lines (suc fuel) [] current hdr = store_header current hdr
imf_lines (suc fuel) (b ∷ text) current hdr = elim (find_text crlf (b ∷ text)) [
  | none ↦ let (current', hdr') = imf_line (b ∷ text) current hdr in store_header current' hdr'
  | some n ↦
      let (current', hdr') = imf_line (take n (b ∷ text)) current hdr in
      let rest = imf_lines fuel (drop (n + 2) (b ∷ text)) current' hdr' in
      if n == 0 then store_header current hdr else rest
]

-- A text without a header is refused. The whole rest of the data is consumed.
unfoldable pub decode_imf : Bytes → ℕ → Outcome Imf
decode_imf data' offset =
    if leb (length data') offset
    then err truncated_header offset
    else (let hdr = imf_lines (length data') (drop offset data') no_header no_headers in
        if length hdr.headers == 0 then err malformed_packet offset else ok hdr (length data'))
