-- ===== src/App/Frames/Bounds.antt =====
-- The reads and offsets of src/protocol/quic.cpp, smb.cpp and srvloc.cpp.
use fdpi.Base.{ℕ, ◌+◌, ◌≤◌, ◌&&◌, length, length-drop, leb, ltb, ◌==◌, arith}
use fdpi.Wire.{Bytes}
use fdpi.Wire.Bounded.{
  Bounded, returns, fails, Bounded-if, Bounded-guard, Bounded-and_then, Bounded-at, Bounded-be16,
  Bounded-be32, Bounded-copy,
}
use fdpi.App.Frames.{
  connection_id, quic_long, decode_quic, smb2, smb1, decode_smb, srvloc1, SrvLoc, with_language,
  srvloc2, decode_srvloc,
}

module _ (data' : Bytes) (o : ℕ) (h : o ≤ length data') where
  connection_id-Bounded : (pos : ℕ) → o ≤ pos → Bounded o (length data') (connection_id o data' pos)
  unfolding connection_id
  connection_id-Bounded pos l =
      Bounded-if (leb (length data') pos) (λ _. fails (omega arith) h)
        λ more. Bounded-at data' pos (ground arith) λ len.
          Bounded-if (ltb (length data') (pos + 1 + len)) (λ _. fails (omega arith) h)
            λ fits. Bounded-copy _ _ _ (ground arith) λ _. returns (omega arith) (ground arith)

  pub decode_quic-Bounded : Bounded o (length data') (decode_quic data' o)
  unfolding decode_quic quic_long
  decode_quic-Bounded =
      Bounded-if (leb (length data') o) (λ _. fails (omega arith) h)
        λ more. Bounded-at _ _ (ground (arith, length-drop o data')) λ first.
          Bounded-if (leb 128 first)
            (λ _. Bounded-guard data' o 7 h λ room _. Bounded-be32 _ _ (omega arith) λ _.
              Bounded-and_then _ _ o (omega arith) (connection_id-Bounded (o + 5) (omega arith))
                λ _ o1 l1 u1.
                  Bounded-and_then _ _ o (omega arith) (connection_id-Bounded o1 l1)
                    λ _ o2 l2 u2. returns l2 u2)
            λ _. returns (omega arith) (ground arith)

  pub decode_smb-Bounded : Bounded o (length data') (decode_smb data' o)
  unfolding decode_smb smb2 smb1
  decode_smb-Bounded = Bounded-guard data' o 4 h λ room4 _. Bounded-be32 _ _ (omega arith) λ magic.
      Bounded-if (magic == 4266872130)
        (λ _. Bounded-guard data' o 64 h λ room fits. Bounded-at _ _ (omega arith) λ _.
          Bounded-be32 _ _ (omega arith) λ _. Bounded-at _ _ (omega arith) λ _.
            Bounded-be16 _ _ (omega arith) λ _.
              Bounded-be16 _ _ (omega arith)
                λ _. Bounded-be16 _ _ (omega arith) λ _. returns (omega arith) fits)
        λ _.
          Bounded-if (magic == 4283649346)
            (λ _. Bounded-guard data' o 32 h λ room fits. Bounded-at _ _ (omega arith) λ _.
              Bounded-be32 _ _ (omega arith) λ _. Bounded-at _ _ (omega arith) λ _.
                Bounded-be16 _ _ (omega arith) λ _. Bounded-be16 _ _ (omega arith) λ _.
                  Bounded-be16 _ _ (omega arith)
                    λ _. Bounded-be16 _ _ (omega arith) λ _. returns (omega arith) fits)
            λ _. fails (omega arith) h

  with_language-Bounded :
      (hdr : SrvLoc) (n pos : ℕ)
      → o ≤ pos
      → pos ≤ length data'
      → Bounded o (length data') (with_language hdr n data' pos)
  unfolding with_language
  with_language-Bounded hdr n pos l u =
      Bounded-if (ltb 0 n && leb (pos + n) (length data'))
        (λ fits. Bounded-copy _ _ _ (ground arith) λ _. returns (omega arith) (ground arith))
        λ _. returns l u

  pub decode_srvloc-Bounded : Bounded o (length data') (decode_srvloc data' o)
  unfolding decode_srvloc srvloc1 srvloc2
  decode_srvloc-Bounded = Bounded-guard data' o 5 h λ room5 _.
      Bounded-at _ _ (omega arith) λ version.
        Bounded-if (version == 1)
          (λ _. Bounded-guard data' o 12 h λ room fits. Bounded-at _ _ (omega arith) λ _.
            Bounded-be16 _ _ (omega arith)
              λ _. Bounded-be16 _ _ (omega arith) λ _. returns (omega arith) fits)
          λ _.
            Bounded-if (version == 2)
              (λ _. Bounded-guard data' o 14 h λ room fits. Bounded-at _ _ (omega arith) λ _.
                Bounded-be16 _ _ (omega arith) λ _. Bounded-be16 _ _ (omega arith) λ _.
                  Bounded-be16 _ _ (omega arith)
                    λ n. with_language-Bounded _ n (o + 14) (omega arith) fits)
              λ _. fails (omega arith) h
