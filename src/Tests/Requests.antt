-- ===== src/Tests/Requests.antt =====
-- The witness of the round trip of HTTP requests.
use fdpi.Base.{◌≡◌, refl, true, [], ◌∷◌}
use fdpi.Wire.{Bytes, ok}
use fdpi.App.Http.{decode_http, all_within, without_spaces}
use fdpi.App.Http.HeaderLines.{Without, AreHeaders, encode_headers, headers_size}
use fdpi.App.Http.RoundTrip.{request_line, encode_request, decode_http-encode_request}

-- `GET / HTTP/1` with the header `A: b`, and a body of one byte.
abbrev get_request : Bytes
get_request =
    71 ∷ 69 ∷ 84 ∷ 32 ∷ 47 ∷ 32 ∷ 72 ∷ 84 ∷ 84 ∷ 80 ∷ 47 ∷ 49 ∷ 13 ∷ 10 ∷ 65 ∷ 58 ∷ 32 ∷ 98 ∷ 13
    ∷ 10 ∷ 13 ∷ 10 ∷ 7 ∷ []

decode_http-encode_request_example :
    decode_http get_request 0
    ≡ ok
        (record {
          is_request = true;
          method = 71 ∷ 69 ∷ 84 ∷ [];
          uri = 47 ∷ [];
          status_code = 0;
          version = 49 ∷ [];
          headers = (65 ∷ [], 98 ∷ []) ∷ [];
        })
        22
unfolding encode_request request_line encode_headers headers_size AreHeaders Without all_within
    without_spaces
decode_http-encode_request_example =
    decode_http-encode_request (71 ∷ 69 ∷ 84 ∷ []) (47 ∷ []) (49 ∷ []) refl refl refl (refl, tt)
      get_request 0 ((65 ∷ [], 98 ∷ []) ∷ []) (7 ∷ [])
      ((refl, tt), (refl, tt), (refl, tt), refl, tt) refl
