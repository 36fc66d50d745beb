-- ===== src/App/Mime/Bounds.antt =====
-- The offsets of src/protocol/imf.cpp.
use fdpi.Base.{ℕ, ◌≤◌, length, drop, leb, ◌==◌, arith}
use fdpi.Wire.{Bytes}
use fdpi.Wire.Bounded.{Bounded, returns, fails, Bounded-if}
use fdpi.App.Mime.{decode_imf, imf_lines, no_header, no_headers}

pub decode_imf-Bounded :
    (data' : Bytes) (o : ℕ) → o ≤ length data' → Bounded o (length data') (decode_imf data' o)
unfolding decode_imf
decode_imf-Bounded data' o h =
    Bounded-if (leb (length data') o) (λ _. fails (omega arith) h)
      λ _.
        Bounded-if
          (length (imf_lines (length data') (drop o data') no_header no_headers).headers == 0)
          (λ _. fails (omega arith) h) λ _. returns h (omega arith)
