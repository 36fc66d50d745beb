-- ===== src/App/Ocsp/Bounds.antt =====
-- The reads and offsets of src/protocol/ocsp.cpp. The offset may move backwards, where a sum wraps around,
-- but stays inside the data.
use fdpi.Base.{
  ℕ, ◌+◌, ◌%◌, ◌≤◌, ◌&&◌, not, Option, none, some, length, drop, length-drop, ltb, ◌==◌, arith,
}
use fdpi.Wire.{Bytes, Outcome, ok, err, fault}
use fdpi.Wire.Bounded.{Bounded, returns, fails, Bounded-if, Bounded-at, Bounded-and_then}
use fdpi.Wire.Ensures.{
  Ensures, gives, breaks, Ensures-if, Ensures-call, Bounded-after, ltb-eq_false,
}
use fdpi.App.Asn1.Bounds.{shift_in-Bounded}
use fdpi.App.Http.Bounds.{decode_http-Bounded}
use fdpi.App.Ocsp.{
  Ocsp, ocsp_length, response_status_of, ocsp_content, decode_ocsp, has_ocsp_header, ocsp_body,
  decode_http_ocsp,
}

ocsp_length-Ensures :
    (data' : Bytes) (o n : ℕ)
    → o + 3 ≤ length data'
    → Ensures (λ lens _. o + lens.0 ≤ length data') 0 (length data') (ocsp_length data' o n)
unfolding ocsp_length
ocsp_length-Ensures data' o n h =
    Ensures-if (ltb n 128) (λ _. gives (omega arith) (omega arith) (omega arith))
      λ _.
        Ensures-if (ltb (length data') (o + 2 + n % 128)) (λ _. breaks (omega arith) (omega arith))
          λ fits.
            Ensures-call _ _ (o + 2) (omega arith)
              (shift_in-Bounded data' 0 (o + 2) (n % 128) (ground arith))
              λ _ _ _ _. gives (omega arith) (omega arith) (ground arith)

response_status_of-Bounded :
    (data' : Bytes) (inner : ℕ)
    → inner ≤ length data'
    → Bounded 0 (length data') (response_status_of data' inner)
unfolding response_status_of
response_status_of-Bounded data' inner h =
    Bounded-if (ltb (inner + 2) (length data'))
      (λ more. Bounded-at data' (inner + 2) (ground arith) λ _. returns (omega arith) h)
      λ _. returns (omega arith) h

ocsp_content-Bounded :
    (data' : Bytes) (inner scan_end : ℕ)
    → inner ≤ length data'
    → Bounded 0 (length data') (ocsp_content data' inner scan_end)
unfolding ocsp_content
ocsp_content-Bounded data' inner scan_end h =
    Bounded-if (ltb inner (length data'))
      (λ more. Bounded-at data' inner (ground arith) λ tag.
        Bounded-if (tag == 10)
          (λ _.
            Bounded-and_then _ _ 0 (omega arith) (response_status_of-Bounded data' inner h)
              λ _ _ _ _. returns (omega arith) h)
          λ _. returns (omega arith) h)
      λ _. returns (omega arith) h

decode_ocsp-Bounded :
    (data' : Bytes) (o : ℕ) → o ≤ length data' → Bounded 0 (length data') (decode_ocsp data' o)
unfolding decode_ocsp
decode_ocsp-Bounded data' o h =
    Bounded-if (ltb (length data') (o + 3)) (λ _. fails (omega arith) h)
      λ fits.
        let inside : o + 3 ≤ length data' = ltb-eq_false _ _ fits in
        let room : 3 ≤ length (drop o data') = omega (arith, length-drop o data') in
        Bounded-at _ _ (omega arith) λ tag. Bounded-at _ _ (omega arith) λ len_byte.
          Bounded-if (not (tag == 48)) (λ _. fails (omega arith) h)
            λ _.
              Bounded-after _ _ 0 (omega arith) (ocsp_length-Ensures data' o len_byte inside)
                λ lens _ _ _ begins.
                  Bounded-and_then _ _ 0 (omega arith)
                    (ocsp_content-Bounded data' (o + lens.0) _ begins)
                    λ _ _ _ _. returns (omega arith) (omega arith)

ocsp_body-Bounded :
    (data' : Bytes) (o : ℕ) → o ≤ length data' → Bounded o (length data') (ocsp_body data' o)
unfolding ocsp_body
ocsp_body-Bounded data' o h = payload (decode_ocsp-Bounded data' o h)
  where
    payload :
        {m : Outcome Ocsp}
        → Bounded 0 (length data') m
        → Bounded {A = Option Ocsp} o
            (length data')
            (elim m [ ok p _ ↦ ok (some p) o | err _ _ ↦ ok none o | fault ↦ fault ])
    payload (returns _ _) = returns (omega arith) h
    payload (fails _ _) = returns (omega arith) h

-- An HTTP message with its OCSP payload reads inside the buffer and leaves the offset inside.
pub decode_http_ocsp-Bounded :
    (data' : Bytes) (o : ℕ) → o ≤ length data' → Bounded o (length data') (decode_http_ocsp data' o)
unfolding decode_http_ocsp
decode_http_ocsp-Bounded data' o h =
    Bounded-and_then _ _ o (omega arith) (decode_http-Bounded data' o h) λ msg o1 l1 u1.
      Bounded-if (has_ocsp_header msg.headers && ltb o1 (length data'))
        (λ _.
          Bounded-and_then _ _ o1 l1 (ocsp_body-Bounded data' o1 u1)
            λ _ o2 l2 u2. returns (omega arith) u2)
        λ _. returns l1 u1
