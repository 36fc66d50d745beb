-- ===== src/App/Http/RoundTrip.antt =====
-- HTTP requests as RFC 7230 writes them, and what src/protocol/http.cpp reads of them.
use fdpi.Base.{
  inl, ℕ, suc, ◌+◌, ◌<◌, ◌≡◌, refl, ap, ◌∙◌, true, false, some, [], ◌∷◌, ◌++◌, length, take, drop,
  length-drop, length-append, take-append_length, leb, ◌==◌, arith,
}
use fdpi.Wire.{Bytes, ok}
use fdpi.Wire.Reads.{drop-past, drop-next}
use fdpi.App.Line.{starts_with, find_text, crlf}
use fdpi.App.Http.HeaderLines.{
  Without, Without-append, split_at-append, find_text-crlf, all_within-Without, AreHeaders,
  encode_headers, headers_size, header_lines-encode, length-encode_headers,
}
use fdpi.App.Http.{
  Http, Headers, http_slash, all_within, request_of, http_request, http_start, http_message,
  decode_http,
}

all_capitals : all_within 65 90 (72 ∷ 84 ∷ 84 ∷ 80 ∷ []) ≡ true
unfolding all_within
all_capitals = refl

-- Capitals before a space do not begin a text of capitals and a slash.
not_slash :
    (pre method rest : Bytes)
    → all_within 65 90 pre ≡ true
    → all_within 65 90 method ≡ true
    → starts_with (pre ++ 47 ∷ []) (method ++ 32 ∷ rest) ≡ false
unfolding all_within starts_with
not_slash [] [] rest hp hm = refl
not_slash [] (c ∷ method) rest hp hm = ground arith
not_slash (p ∷ pre) [] rest hp hm = ground arith
not_slash (p ∷ pre) (c ∷ method) rest hp hm =
    ground (arith, not_slash pre method rest (ground arith) (ground arith))

unfoldable pub encode_request : Bytes → Bytes → Bytes → Headers → Bytes → Bytes
encode_request method uri version headers body =
    (method ++ 32 ∷ (uri ++ 32 ∷ (http_slash ++ version))) ++ 13 ∷ 10 ∷ encode_headers headers body

module _ (method uri version : Bytes) (some_method : length method == 0 ≡ false)
    (capitals : all_within 65 90 method ≡ true) (visible : all_within 33 126 uri ≡ true)
    (one_line : Without 13 version) where
  abbrev pub request : Http
  request = record {
    is_request = true;
    method = method;
    uri = uri;
    status_code = 0;
    version = version;
    headers = [];
  }

  unfoldable pub request_line : Bytes
  request_line = method ++ 32 ∷ (uri ++ 32 ∷ (http_slash ++ version))

  request_line-Without : Without 13 request_line
  unfolding request_line Without
  request_line-Without =
      Without-append 13 method _ (all_within-Without 65 90 13 method (inl (omega arith)) capitals) (
        refl,
        Without-append 13 uri _ (all_within-Without 33 126 13 uri (inl (omega arith)) visible)
            (refl, (refl, (refl, (refl, (refl, (refl, one_line)))))),
      )

  two_spaces : http_request request_line ≡ some request
  unfolding http_request request_of request_line starts_with
  two_spaces =
      let first =
        split_at-append 32 method (uri ++ 32 ∷ (http_slash ++ version))
          (all_within-Without 65 90 32 method (inl (omega arith)) capitals) in
      let second =
        split_at-append 32 uri (http_slash ++ version)
          (all_within-Without 33 126 32 uri (inl (omega arith)) visible) in
      rw (first, second, http_request) (rw (some_method, capitals, visible) refl)

  http_start-request : http_start request_line ≡ some request
  unfolding http_start request_line
  http_start-request =
      rw (not_slash (72 ∷ 84 ∷ 84 ∷ 80 ∷ []) method _ all_capitals capitals) two_spaces

  -- `decodeHttp` reads back a request with a method of capitals, a visible URI and a version on one line, if
  -- the names of its headers have no colon and no carriage return, and their values have no carriage
  -- return and do not begin with a space: it gives the method, URI, version and headers, and leaves the
  -- offset at the body.
  pub decode_http-encode_request :
      (data' : Bytes) (o : ℕ) (headers : Headers) (body : Bytes)
      → AreHeaders headers
      → drop o data' ≡ encode_request method uri version headers body
      → decode_http data' o
        ≡ ok
            (record request { headers = headers })
            (o + (length request_line + 2 + headers_size headers))
  unfolding decode_http http_message encode_request request_line AreHeaders
  decode_http-encode_request data' o headers body good h =
      let rest = encode_headers headers body in
      let text = drop o data' in
      let size : length text ≡ length request_line + suc (suc (length rest)) =
        ap length h ∙ length-append request_line (13 ∷ 10 ∷ rest) in
      let some_left : leb (length data') o ≡ false = ground (arith, size, length-drop o data') in
      let found : find_text crlf text ≡ some (length request_line) =
        ap (find_text crlf) h ∙ find_text-crlf request_line rest request_line-Without in
      let taken : take (length request_line) text ≡ request_line =
        ap (take (length request_line)) h ∙ take-append_length request_line (13 ∷ 10 ∷ rest) in
      let two : length request_line + 2 ≡ suc (suc (0 + length request_line)) = omega arith in
      let at_headers : drop (length request_line + 2) text ≡ rest =
        ap (λ k. drop k text) two
        ∙ drop-next text (suc (0 + length request_line)) (
            drop-next text (0 + length request_line)
              (drop-past text request_line (13 ∷ 10 ∷ rest) 0 h)) in
      let enough : length headers < length text =
        omega (arith, size, length-encode_headers headers body) in
      let lines =
        header_lines-encode text body (length text) (length request_line + 2) headers enough good
          at_headers in
      rw (some_left, found, taken, http_start-request, decode_http) (rw lines refl)
