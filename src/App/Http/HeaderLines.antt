-- ===== src/App/Http/HeaderLines.antt =====
-- Lines and headers as RFC 7230 writes them, and what src/protocol/http.cpp reads of them.
use fdpi.Base.{
  ◌⊎◌, ℕ, zero, suc, ◌+◌, ◌≤◌, ◌<◌, ◌≡◌, refl, ap, ◌∙◌, true, false, some, [], ◌∷◌, ◌++◌, length,
  take, drop, length-append, take-append_length, ◌==◌, arith, if_true, if_false,
}
use fdpi.Wire.{Bytes}
use fdpi.Wire.Reads.{drop-past, drop-next}
use fdpi.Text.{split_at}
use fdpi.App.Line.{starts_with, find_text, crlf}
use fdpi.App.Http.{Headers, all_within, without_spaces, header_of, header_lines}

-- The byte `c` is not in the text.
unfoldable pub Without : ℕ → Bytes → Type 0
Without c [] = Unit
Without c (b ∷ s) = (b == c ≡ false) × Without c s

pub Without-append : (c : ℕ) (s t : Bytes) → Without c s → Without c t → Without c (s ++ t)
unfolding Without
Without-append c [] t hs ht = ht
Without-append c (b ∷ s) t (hb, hs) ht = (hb, Without-append c s t hs ht)

pub split_at-append : (c : ℕ) (s t : Bytes) → Without c s → split_at c (s ++ c ∷ t) ≡ some (s, t)
unfolding split_at Without
split_at-append c [] t h = if_true (c == c) _ _ (ground arith)
split_at-append c (b ∷ s) t (hb, hs) = if_false (b == c) _ _ hb ∙ rw (split_at-append c s t hs) refl

pub find_text-crlf :
    (line rest : Bytes)
    → Without 13 line
    → find_text crlf (line ++ 13 ∷ 10 ∷ rest) ≡ some (length line)
unfolding find_text starts_with Without
find_text-crlf [] rest h = refl
find_text-crlf (b ∷ s) rest (hb, hs) =
    let other : 13 == b ≡ false = ground arith in
    let later : find_text crlf (s ++ 13 ∷ 10 ∷ rest) ≡ some (length s) = find_text-crlf s rest hs in
    let count : length s + 1 ≡ suc (length s) = omega arith in rw (other, later, count) refl

-- A range without `c`.
pub all_within-Without :
    (lo hi c : ℕ) (s : Bytes) → (c < lo) ⊎ (hi < c) → all_within lo hi s ≡ true → Without c s
unfolding all_within Without
all_within-Without lo hi c [] out h = tt
all_within-Without lo hi c (b ∷ s) out h =
    (ground arith, all_within-Without lo hi c s out (ground arith))

-- Names without a colon, and values that do not begin with a space, without line ends.
unfoldable pub AreHeaders : Headers → Type 0
AreHeaders [] = Unit
AreHeaders ((key, value) ∷ headers) =
    Without 58 key
    × Without 13 key
    × Without 13 value
    × (without_spaces value ≡ value)
    × AreHeaders headers

-- A line each, and an empty line.
unfoldable pub encode_headers : Headers → Bytes → Bytes
encode_headers [] body = 13 ∷ 10 ∷ body
encode_headers ((key, value) ∷ headers) body =
    (key ++ 58 ∷ 32 ∷ value) ++ 13 ∷ 10 ∷ encode_headers headers body

pub header_of-line :
    (key value : Bytes)
    → Without 58 key
    → without_spaces value ≡ value
    → header_of (key ++ 58 ∷ 32 ∷ value) ≡ (key, value) ∷ []
unfolding header_of without_spaces
header_of-line key value no_colon trim =
    rw (split_at-append 58 key (32 ∷ value) no_colon, header_of) (ap (λ v. (key, v) ∷ []) trim)

-- The bytes of the lines, with the empty one.
unfoldable pub headers_size : Headers → ℕ
headers_size [] = 2
headers_size ((key, value) ∷ headers) = length key + length value + 4 + headers_size headers

pub header_lines-encode :
    (text body : Bytes) (fuel pos : ℕ) (headers : Headers)
    → length headers < fuel
    → AreHeaders headers
    → drop pos text ≡ encode_headers headers body
    → header_lines fuel text pos ≡ (headers, pos + headers_size headers)
unfolding header_lines encode_headers AreHeaders headers_size Without
header_lines-encode text body zero pos headers enough good h = absurd (omega arith)
header_lines-encode text body (suc fuel) pos [] enough good h =
    let found : find_text crlf (drop pos text) ≡ some 0 =
      ap (find_text crlf) h ∙ find_text-crlf [] body tt in
    rw (found, header_lines) refl
header_lines-encode text body (suc fuel) pos ((key, value) ∷ headers) enough good h =
    let line = key ++ 58 ∷ 32 ∷ value in
    let rest = encode_headers headers body in
    let found : find_text crlf (drop pos text) ≡ some (length line) =
      ap (find_text crlf) h
      ∙ find_text-crlf line rest
          (Without-append 13 key (58 ∷ 32 ∷ value) (good.1) (refl, (refl, good.2))) in
    let size : length line ≡ length key + length value + 2 =
      omega (arith, length-append key (58 ∷ 32 ∷ value)) in
    let long : length line == 0 ≡ false = ground (arith, size) in
    let taken : take (length line) (drop pos text) ≡ line =
      ap (take (length line)) h ∙ take-append_length line (13 ∷ 10 ∷ rest) in
    let two : pos + length line + 2 ≡ suc (suc (pos + length line)) = omega arith in
    let next : drop (pos + length line + 2) text ≡ rest =
      ap (λ k. drop k text) two
      ∙ drop-next text (suc (pos + length line))
          (drop-next text (pos + length line) (drop-past text line (13 ∷ 10 ∷ rest) pos h)) in
    let end : pos + length line + 2 + headers_size headers
        ≡ pos + (length key + length value + 4 + headers_size headers) =
      omega (arith, size) in
    let later =
      header_lines-encode text body fuel (pos + length line + 2) headers (omega arith) (good.4)
        next in
    rw (found, header_lines)
      (rw (long, taken, header_of-line key value (good.0) (good.3), later)
        (ap (λ k. ((key, value) ∷ headers, k)) end))

pub length-encode_headers :
    (headers : Headers) (body : Bytes) → length headers ≤ length (encode_headers headers body)
unfolding encode_headers
length-encode_headers [] body = omega arith
length-encode_headers ((key, value) ∷ headers) body = omega (
  arith,
  length-append (key ++ 58 ∷ 32 ∷ value) (13 ∷ 10 ∷ encode_headers headers body),
  length-encode_headers headers body,
)
