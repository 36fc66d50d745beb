-- ===== src/App/Ocsp.antt =====
-- `decodeOcsp` of src/protocol/ocsp.cpp, and the HTTP bodies that `decodeL7` of src/decoder.cpp gives it. A
-- `size_t` sum wraps around.
pub mod Bounds
use fdpi.Base.{
  ℕ, zero, suc, ◌+◌, ◌-◌, ◌*◌, ◌%◌, ◌^◌, Bool, true, false, not, ◌&&◌, ◌||◌, Option, none, some,
  List, [], ◌∷◌, length, take, drop, min, leb, ltb, ◌==◌, if◌then◌else◌,
}
use fdpi.Wire.{
  Bytes, Outcome, ok, err, fault, truncated_header, malformed_packet, ◌>>=◌, and_then, at,
}
use fdpi.Address.{bytes_eq}
use fdpi.App.Asn1.{shift_in}
use fdpi.App.Http.{Http, Headers, decode_http}
use fdpi.App.Line.{find_text}

pub record Ocsp : Type 0 where
  pub is_request : Bool
  pub response_status : ℕ
  pub cert_status : Option ℕ

-- The first of the tags that tell the status of a certificate.
unfoldable pub cert_status_of : Bytes → Option ℕ
cert_status_of [] = none
cert_status_of (a ∷ []) = none
cert_status_of (a ∷ b ∷ s) =
    if a == 128 && b == 0
    then some 0
    else if a == 161
    then some 1
    else if a == 130 && b == 0
    then some 2
    else cert_status_of (b ∷ s)

-- The length of the header, with the contents' length.
unfoldable pub ocsp_length : Bytes → ℕ → ℕ → Outcome (ℕ × ℕ)
ocsp_length data' offset len_byte =
    if ltb len_byte 128
    then ok (2, len_byte) offset
    else if ltb (length data') (offset + 2 + len_byte % 128)
    then err truncated_header offset
    else and_then (shift_in data' 0 (offset + 2) (len_byte % 128))
        (λ content_len _. ok (2 + len_byte % 128, content_len) offset)

unfoldable pub response_status_of : Bytes → ℕ → Outcome ℕ
response_status_of data' inner =
    if ltb (inner + 2) (length data') then (do b ← at data' (inner + 2); ok b inner) else ok 0 inner

abbrev pub ocsp_request : Ocsp
ocsp_request = record { is_request = true; response_status = 0; cert_status = none }

-- An ENUMERATED inside makes a response. The scan goes to `scan_end`.
unfoldable pub ocsp_content : Bytes → ℕ → ℕ → Outcome Ocsp
ocsp_content data' inner scan_end =
    if ltb inner (length data')
    then (do
      tag ← at data' inner
      if tag == 10
          then and_then (response_status_of data' inner) (λ status _.
            ok
              (record {
                is_request = false;
                response_status = status;
                cert_status = cert_status_of (take (scan_end - inner) (drop inner data'));
              })
              inner)
          else ok ocsp_request inner)
    else ok ocsp_request inner

unfoldable pub decode_ocsp : Bytes → ℕ → Outcome Ocsp
decode_ocsp data' offset =
    if ltb (length data') (offset + 3) then err truncated_header offset else do
      tag ← at (drop offset data') 0
      len_byte ← at (drop offset data') 1
      if not (tag == 48)
          then err malformed_packet offset
          else and_then (ocsp_length data' offset len_byte) (λ lens _.
            and_then
              (ocsp_content data' (offset + lens.0)
                (min (length data') ((offset + lens.0 + lens.1) % 2 ^ 64)))
              λ hdr _. ok hdr (min ((offset + lens.0 + lens.1) % 2 ^ 64) (length data')))

-- `Content-Type` or `content-type` with `application/ocsp` in its value.
unfoldable pub is_ocsp_header : Bytes × Bytes → Bool
is_ocsp_header (key, val) =
    (bytes_eq key (67 ∷ 111 ∷ 110 ∷ 116 ∷ 101 ∷ 110 ∷ 116 ∷ 45 ∷ 84 ∷ 121 ∷ 112 ∷ 101 ∷ [])
      || bytes_eq key (99 ∷ 111 ∷ 110 ∷ 116 ∷ 101 ∷ 110 ∷ 116 ∷ 45 ∷ 116 ∷ 121 ∷ 112 ∷ 101 ∷ []))
    && elim (find_text
        (97 ∷ 112 ∷ 112 ∷ 108 ∷ 105 ∷ 99 ∷ 97 ∷ 116 ∷ 105 ∷ 111 ∷ 110 ∷ 47 ∷ 111 ∷ 99 ∷ 115 ∷ 112
          ∷ [])
        val) [ none ↦ false | some _ ↦ true ]

unfoldable pub has_ocsp_header : Headers → Bool
has_ocsp_header [] = false
has_ocsp_header (h ∷ hs) = is_ocsp_header h || has_ocsp_header hs

-- An error of the body is passed over.
unfoldable pub ocsp_body : Bytes → ℕ → Outcome (Option Ocsp)
ocsp_body data' offset = elim (decode_ocsp data' offset) [
  | ok o _ ↦ ok (some o) offset
  | err _ _ ↦ ok none offset
  | fault ↦ fault
]

-- The case of HTTP in `decodeL7`: a message with its OCSP payload.
unfoldable pub decode_http_ocsp : Bytes → ℕ → Outcome (Http × Option Ocsp)
decode_http_ocsp data' offset = and_then (decode_http data' offset) λ msg offset1.
    if has_ocsp_header msg.headers && ltb offset1 (length data')
    then and_then (ocsp_body data' offset1) (λ payload offset2. ok (msg, payload) offset2)
    else ok (msg, none) offset1
