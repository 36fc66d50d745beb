-- ===== src/App/Records/Bounds.antt =====
-- The reads and offsets of src/protocol/ntp.cpp, rtcp.cpp, dtls.cpp and bgp.cpp.
use fdpi.Wire.{and_then, Bytes, Outcome, ok}
use fdpi.Base.{
  ℕ, ◌+◌, ◌*◌, ◌^◌, ◌≤◌, length, drop, length-drop, ltb, ◌==◌, ◌&&◌, arith, if◌then◌else◌, if-elim,
}
use fdpi.Wire.Bounded.{
  Bounded, returns, fails, Readable, Bounded-if, Bounded-guard, Bounded-read, Bounded-and_then,
  Bounded-at, Bounded-be16, Bounded-be32, Bounded-copy, be32-Readable,
}
use fdpi.App.Records.{
  be64, decode_ntp, decode_rtcp, handshake_type_of, read_dtls, decode_dtls, all_ones, bgp_open,
  bgp_body, decode_bgp,
}

be64-Readable : (p : Bytes) (i : ℕ) → i + 8 ≤ length p → Readable (be64 p i)
unfolding be64
be64-Readable p i h =
    let (a, ea) = be32-Readable p i (omega arith) in
    let (b, eb) = be32-Readable p (i + 4) (omega arith) in (a * 2 ^ 32 + b, rw (ea, eb, be64))

-- A call that leaves the offset where it is, and a move by `n`.
Bounded-move :
    {A B : Type 0} {o hi : ℕ} {m : Outcome A} (f : A → B) (n : ℕ)
    → o + n ≤ hi
    → Bounded o o m
    → Bounded o hi (and_then m λ a o'. ok (f a) (o' + n))
unfolding and_then
Bounded-move f n h (returns l u) = returns (omega arith) (omega arith)
Bounded-move f n h (fails l u) = fails l (omega arith)

module _ (data' : Bytes) (o : ℕ) (h : o ≤ length data') where
  pub decode_ntp-Bounded : Bounded o (length data') (decode_ntp data' o)
  unfolding decode_ntp
  decode_ntp-Bounded = Bounded-guard data' o 48 h λ room fits. Bounded-at _ _ (omega arith) λ _.
      Bounded-at _ _ (omega arith) λ _. Bounded-at _ _ (omega arith) λ _.
        Bounded-at _ _ (omega arith) λ _. Bounded-be32 _ _ (omega arith) λ _.
          Bounded-be32 _ _ (omega arith) λ _. Bounded-be32 _ _ (omega arith) λ _.
            Bounded-read _ _ (be64-Readable _ 16 (omega arith)) λ _.
              Bounded-read _ _ (be64-Readable _ 24 (omega arith)) λ _.
                Bounded-read _ _ (be64-Readable _ 32 (omega arith)) λ _.
                  Bounded-read _ _ (be64-Readable _ 40 (omega arith))
                    λ _. returns (omega arith) (omega arith)

  -- The end of a packet that may be longer than the buffer.
  cut_off :
      {A : Type 0} {a : A} (n : ℕ)
      → o ≤ n
      → Bounded o (length data') (ok a (if ltb (length data') n then length data' else n))
  cut_off {a} n l =
      if-elim (λ k. Bounded o (length data') (ok a k)) (ltb (length data') n)
        (λ _. returns h (omega arith)) λ fits. returns l (ground arith)

  pub decode_rtcp-Bounded : Bounded o (length data') (decode_rtcp data' o)
  unfolding decode_rtcp
  decode_rtcp-Bounded = Bounded-guard data' o 8 h λ room fits. Bounded-at _ _ (omega arith) λ _.
      Bounded-at _ _ (omega arith) λ _.
        Bounded-be16 _ _ (omega arith)
          λ words. Bounded-be32 _ _ (omega arith) λ _. cut_off (o + (words + 1) * 4) (omega arith)

  bgp_open-Bounded :
      (message_length type : ℕ)
      → o + message_length ≤ length data'
      → Bounded o o (bgp_open data' o message_length type)
  unfolding bgp_open
  bgp_open-Bounded message_length type fits =
      Bounded-if (type == 1)
        (λ _.
          Bounded-if (ltb message_length 29) (λ _. fails (omega arith) (omega arith))
            λ long.
              let room : 29 ≤ length (drop o data') = ground (arith, length-drop o data') in
              Bounded-at _ _ (omega arith) λ _. Bounded-be16 _ _ (omega arith) λ _.
                Bounded-be16 _ _ (omega arith)
                  λ _. Bounded-copy _ _ _ (omega arith) λ _. returns (omega arith) (omega arith))
        λ _. returns (omega arith) (omega arith)

  pub decode_bgp-Bounded : Bounded o (length data') (decode_bgp data' o)
  unfolding decode_bgp bgp_body
  decode_bgp-Bounded = Bounded-guard data' o 19 h λ room fits.
      Bounded-copy _ _ _ (omega arith) λ marker.
        Bounded-if (all_ones marker)
          (λ _. Bounded-be16 _ _ (omega arith) λ message_length.
            Bounded-at _ _ (omega arith) λ type.
              Bounded-if (ltb (length data') (o + message_length)) (λ _. fails (omega arith) h)
                λ inside.
                  Bounded-move _ message_length (ground arith)
                    (bgp_open-Bounded message_length type (ground arith)))
          λ _. fails (omega arith) h

  read_dtls-Bounded : o + 13 ≤ length data' → Bounded o (length data') (read_dtls data' o)
  unfolding read_dtls
  read_dtls-Bounded fits =
      let room : 13 ≤ length (drop o data') = omega (arith, length-drop o data') in
      Bounded-at _ _ (omega arith) λ _. Bounded-be16 _ _ (omega arith) λ _.
        Bounded-be16 _ _ (omega arith) λ _. Bounded-be16 _ _ (omega arith) λ _.
          Bounded-be32 _ _ (omega arith)
            λ _. Bounded-be16 _ _ (omega arith) λ _. returns (omega arith) fits

handshake_type_of-Bounded :
    (content_type : ℕ) (data' : Bytes) (o : ℕ)
    → o ≤ length data'
    → Bounded o (length data') (handshake_type_of content_type data' o)
unfolding handshake_type_of
handshake_type_of-Bounded content_type data' o h =
    Bounded-if (content_type == 22 && ltb o (length data'))
      (λ more. Bounded-at data' o (ground arith) λ _. returns (omega arith) h)
      λ _. returns (omega arith) h

pub decode_dtls-Bounded :
    (data' : Bytes) (o : ℕ) → o ≤ length data' → Bounded o (length data') (decode_dtls data' o)
unfolding decode_dtls
decode_dtls-Bounded data' o h = Bounded-guard data' o 13 h λ _ fits.
    Bounded-and_then _ _ o (omega arith) (read_dtls-Bounded data' o h fits) λ hdr o' l u.
      Bounded-and_then _ _ o' l (handshake_type_of-Bounded hdr.content_type data' o' u)
        λ _ o'' l' u'. cut_off data' o h (o'' + hdr.body_length) (omega arith)
