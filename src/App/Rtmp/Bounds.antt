-- ===== src/App/Rtmp/Bounds.antt =====
-- The reads and offsets of src/protocol/rtmp.cpp.
use fdpi.Base.{ℕ, ◌+◌, ◌*◌, ◌/◌, ◌%◌, ◌≤◌, ◌&&◌, length, leb, ltb, ◌==◌, arith}
use fdpi.Wire.{Bytes}
use fdpi.Wire.Bounded.{
  Bounded, returns, fails, Readable, Bounded-if, Bounded-guard, Bounded-read, Bounded-and_then,
  Bounded-weaken, Bounded-at, at-Readable, be16-Readable, le16-Readable,
}
use fdpi.App.Rtmp.{be24, le32, chunk_stream, message_header, decode_rtmp}

be24-Readable : (p : Bytes) (i : ℕ) → i + 3 ≤ length p → Readable (be24 p i)
unfolding be24
be24-Readable p i h =
    let (a, ea) = at-Readable p i (omega arith) in
    let (b, eb) = be16-Readable p (i + 1) (omega arith) in (a * 65536 + b, rw (ea, eb, be24))

le32-Readable : (p : Bytes) (i : ℕ) → i + 4 ≤ length p → Readable (le32 p i)
unfolding le32
le32-Readable p i h =
    let (a, ea) = le16-Readable p i (omega arith) in
    let (b, eb) = le16-Readable p (i + 2) (omega arith) in (a + b * 65536, rw (ea, eb, le32))

module _ (data' : Bytes) (o : ℕ) (h : o ≤ length data') where
  chunk_stream-Bounded : (cs_id : ℕ) → Bounded o (length data') (chunk_stream cs_id data' o)
  unfolding chunk_stream
  chunk_stream-Bounded cs_id =
      Bounded-if (cs_id == 0)
        (λ _.
          Bounded-if (leb (length data') o) (λ _. fails (omega arith) h)
            λ more. Bounded-at _ _ (ground arith) λ _. returns (omega arith) (ground arith))
        λ _.
          Bounded-if (cs_id == 1)
            (λ _.
              Bounded-if (ltb (length data') (o + 2)) (λ _. fails (omega arith) h)
                λ more.
                  Bounded-at _ _ (ground arith)
                    λ _. Bounded-at _ _ (ground arith) λ _. returns (omega arith) (ground arith))
            λ _. returns (omega arith) h

  message_header-Bounded :
      (chunk_type cs_id : ℕ) → Bounded o (length data') (message_header chunk_type cs_id data' o)
  unfolding message_header
  message_header-Bounded chunk_type cs_id =
      Bounded-if (chunk_type == 0)
        (λ _. Bounded-guard data' o 11 h λ room fits.
          Bounded-read _ _ (be24-Readable _ 0 (omega arith)) λ _.
            Bounded-read _ _ (be24-Readable _ 3 (omega arith)) λ _.
              Bounded-at _ _ (omega arith) λ _.
                Bounded-read _ _ (le32-Readable _ 7 (omega arith)) λ _. returns (omega arith) fits)
        λ _.
          Bounded-if (chunk_type == 1)
            (λ _. Bounded-guard data' o 7 h λ room fits.
              Bounded-read _ _ (be24-Readable _ 0 (omega arith)) λ _.
                Bounded-read _ _ (be24-Readable _ 3 (omega arith))
                  λ _. Bounded-at _ _ (omega arith) λ _. returns (omega arith) fits)
            λ _.
              Bounded-if (chunk_type == 2)
                (λ _. Bounded-guard data' o 3 h λ room fits.
                  Bounded-read _ _ (be24-Readable _ 0 (omega arith))
                    λ _. returns (omega arith) fits)
                λ _. returns (omega arith) h

pub decode_rtmp-Bounded :
    (data' : Bytes) (o : ℕ) → o ≤ length data' → Bounded o (length data') (decode_rtmp data' o)
unfolding decode_rtmp
decode_rtmp-Bounded data' o h =
    Bounded-if (leb (length data') o) (λ _. fails (omega arith) h)
      λ more. Bounded-at data' o (ground arith) λ first.
        Bounded-if (first == 3 && o == 0) (λ _. returns (omega arith) (ground arith))
          λ _.
            Bounded-and_then _ _ (o + 1) (omega arith)
              (chunk_stream-Bounded data' (o + 1) (ground arith) (first % 64))
              λ cs_id o' l u.
                Bounded-weaken (omega arith)
                  (message_header-Bounded data' o' u (first / 64 % 4) cs_id)
