-- ===== src/App/Http/Bounds.antt =====
-- The offsets of src/protocol/http.cpp and ssdp.cpp.
use fdpi.Base.{
  ℕ, zero, suc, ◌+◌, ◌≤◌, Option, none, some, length, drop, length-drop, leb, ◌==◌, arith, if-elim,
  Option-cases, inl, inr,
}
use fdpi.Wire.{Bytes}
use fdpi.Wire.Bounded.{Bounded, returns, fails, Bounded-if}
use fdpi.App.Line.{find_text, crlf, length-find_text}
use fdpi.App.Http.{Http, Headers, header_lines, http_message, decode_http, decode_ssdp}

module _ (text : Bytes) where
  header_lines-end :
      (fuel pos : ℕ)
      → pos ≤ length text
      → (pos ≤ (header_lines fuel text pos).1) × ((header_lines fuel text pos).1 ≤ length text)
  unfolding header_lines
  header_lines-end zero pos h = (omega arith, h)
  header_lines-end (suc fuel) pos h = elim (Option-cases (find_text crlf (drop pos text))) [
    | inl e ↦ rw (e, header_lines) (omega arith, h)
    | inr (n, e) ↦
        let inside : pos + n + 2 ≤ length text =
          omega (arith, length-find_text crlf (drop pos text) n e, length-drop pos text) in
        let rest = header_lines-end fuel (pos + n + 2) inside in
        rw (e, header_lines)
          (if-elim {A = Headers × ℕ} (λ r. (pos ≤ r.1) × (r.1 ≤ length text)) (n == 0)
            (λ _. (omega arith, omega arith)) λ _. (omega (arith, rest.0), rest.1))
  ]

module _ (data' : Bytes) (o : ℕ) (h : o ≤ length data') where
  http_message-Bounded :
      (n : ℕ) (start : Option Http)
      → n + 2 ≤ length (drop o data')
      → Bounded o (length data') (http_message o (drop o data') n start)
  unfolding http_message
  http_message-Bounded n none fits = fails (omega arith) h
  http_message-Bounded n (some msg) fits =
      let lines = header_lines-end (drop o data') (length (drop o data')) (n + 2) fits in
      returns (omega arith) (omega (arith, lines.1, length-drop o data'))

  pub decode_http-Bounded : Bounded o (length data') (decode_http data' o)
  unfolding decode_http
  decode_http-Bounded =
      Bounded-if (leb (length data') o) (λ _. fails (omega arith) h)
        λ _. elim (Option-cases (find_text crlf (drop o data'))) [
          | inl e ↦ rw e (fails (omega arith) h)
          | inr (n, e) ↦
              rw e
                (http_message-Bounded n _ (omega (arith, length-find_text crlf (drop o data') n e)))
        ]

  pub decode_ssdp-Bounded : Bounded o (length data') (decode_ssdp data' o)
  unfolding decode_ssdp
  decode_ssdp-Bounded =
      Bounded-if (leb (length data') o) (λ _. fails (omega arith) h)
        λ _. elim (Option-cases (find_text crlf (drop o data'))) [
          | inl e ↦ rw e (fails (omega arith) h)
          | inr (n, e) ↦ rw e (returns h (omega arith))
        ]
