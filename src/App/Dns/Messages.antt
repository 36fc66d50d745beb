-- ===== src/App/Dns/Messages.antt =====
-- The reads and the offset of `decodeDns` of src/protocol/dns.cpp.
use fdpi.Base.{
  subst, ℕ, zero, suc, ◌+◌, ◌≤◌, ◌≡◌, Option, none, some, length, drop, length-drop, ltb, arith,
}
use fdpi.App.Dns.Names.{
  Sound-weaken, Sound, sound, refuses, Partial, ends, Sound-if, Sound-read, Partial-after, Within,
  decode_name-Partial,
}
use fdpi.Wire.{Bytes, Outcome, ok, err, fault, be16, be32, copy}
use fdpi.Wire.Bounded.{Bounded, returns, fails, be16-Readable, be32-Readable, copy-Readable}
use fdpi.App.Dns.{
  Dns, question_fields, decode_question, record_fields, decode_record, entries, dns_header,
  dns_sections, keep_offset, decode_dns,
}

module _ (data' : Bytes) (name : Bytes) (pos : ℕ) where
  question_fields-Sound : Sound (Within pos (length data')) (question_fields data' name pos)
  unfolding question_fields
  question_fields-Sound =
      Sound-if (ltb (length data') (pos + 4)) (λ _. refuses)
        λ fits. Sound-read (be16 data' pos) (be16-Readable data' pos (ground arith)) λ _.
          Sound-read (be16 data' (pos + 2)) (be16-Readable data' (pos + 2) (ground arith))
            λ _. sound (omega arith, ground arith)

  record_fields-Sound : Sound (Within pos (length data')) (record_fields data' name pos)
  unfolding record_fields
  record_fields-Sound =
      Sound-if (ltb (length data') (pos + 10)) (λ _. refuses)
        λ fits. Sound-read (be16 data' pos) (be16-Readable data' pos (ground arith)) λ _.
          Sound-read (be16 data' (pos + 2)) (be16-Readable data' (pos + 2) (ground arith)) λ _.
            Sound-read (be32 data' (pos + 4)) (be32-Readable data' (pos + 4) (ground arith)) λ _.
              Sound-read (be16 data' (pos + 8)) (be16-Readable data' (pos + 8) (ground arith))
                λ rdlen.
                  Sound-if (ltb (length data') (pos + 10 + rdlen)) (λ _. refuses)
                    λ more.
                      Sound-read (copy data' (pos + 10) rdlen)
                        (copy-Readable data' (pos + 10) rdlen (ground arith))
                        λ _. sound (omega arith, ground arith)

-- A call that keeps inside from every position on.
abbrev Inside : {A : Type 0} → ℕ → (ℕ → Option (Outcome A)) → Type 0
Inside hi decode = (pos : ℕ) → pos ≤ hi → Partial (Within pos hi) (decode pos)

module _ (fuel : ℕ) (data' : Bytes) (dns_start : ℕ) where
  decode_question-Inside : Inside (length data') (decode_question fuel data' dns_start)
  unfolding decode_question
  decode_question-Inside pos h =
      Partial-after (decode_name-Partial fuel data' dns_start pos h)
        λ name o w. ends (Sound-weaken w.0 (question_fields-Sound data' name o))

  decode_record-Inside : Inside (length data') (decode_record fuel data' dns_start)
  unfolding decode_record
  decode_record-Inside pos h =
      Partial-after (decode_name-Partial fuel data' dns_start pos h)
        λ name o w. ends (Sound-weaken w.0 (record_fields-Sound data' name o))

entries-Inside :
    {A : Type 0} (hi : ℕ) (decode : ℕ → Option (Outcome A)) (n : ℕ)
    → Inside hi decode
    → Inside hi (entries decode n)
unfolding entries
entries-Inside hi decode zero g pos h = ends (sound (omega arith, h))
entries-Inside hi decode (suc n) g pos h = Partial-after (g pos h) λ a o w.
    Partial-after (entries-Inside hi decode n g o w.1)
      λ rest o' w'. ends (sound (omega (arith, w, w'), w'.1))

dns_header-Sound :
    (data' : Bytes) (offset : ℕ) → Sound (Within offset (length data')) (dns_header data' offset)
unfolding dns_header
dns_header-Sound data' offset =
    Sound-if (ltb (length data') (offset + 12)) (λ _. refuses)
      λ fits.
        let field = λ (i : ℕ) (h : i ≤ 10).
          be16-Readable (drop offset data') i (ground (arith, length-drop offset data')) in
        Sound-read (be16 (drop offset data') 0) (field 0 (omega arith)) λ _.
          Sound-read (be16 (drop offset data') 2) (field 2 (omega arith)) λ _.
            Sound-read (be16 (drop offset data') 4) (field 4 (omega arith)) λ _.
              Sound-read (be16 (drop offset data') 6) (field 6 (omega arith)) λ _.
                Sound-read (be16 (drop offset data') 8) (field 8 (omega arith)) λ _.
                  Sound-read (be16 (drop offset data') 10) (field 10 (omega arith))
                    λ _. sound (omega arith, ground arith)

dns_sections-Partial :
    (fuel : ℕ) (data' : Bytes) (offset : ℕ)
    → Partial (Within offset (length data')) (dns_sections fuel data' offset)
unfolding dns_sections
dns_sections-Partial fuel data' offset =
    let question = decode_question-Inside fuel data' offset in
    let record' = decode_record-Inside fuel data' offset in
    Partial-after (ends (dns_header-Sound data' offset)) λ h o w.
      Partial-after (entries-Inside _ _ h.qdcount question o w.1) λ _ o₁ w₁.
        Partial-after (entries-Inside _ _ h.ancount record' o₁ w₁.1) λ _ o₂ w₂.
          Partial-after (entries-Inside _ _ h.nscount record' o₂ w₂.1) λ _ o₃ w₃.
            Partial-after (entries-Inside _ _ h.arcount record' o₃ w₃.1)
              λ _ o₄ w₄. ends (sound (omega (arith, w, w₁, w₂, w₃, w₄), w₄.1))

keep_offset-Bounded :
    (lo hi : ℕ) (m : Outcome Dns)
    → lo ≤ hi
    → Sound (Within lo hi) m
    → Bounded lo hi (keep_offset lo m)
unfolding keep_offset
keep_offset-Bounded lo hi (ok a o) h (sound w) = returns w.0 w.1
keep_offset-Bounded lo hi (err e o) h refuses = fails (omega arith) h
keep_offset-Bounded lo hi fault h s = elim s [ ]

kept-Bounded :
    (lo hi : ℕ) (r : Option (Outcome Dns)) (result : Outcome Dns)
    → lo ≤ hi
    → Partial (Within lo hi) r
    → (elim r [ none ↦ none | some m ↦ some (keep_offset lo m) ]) ≡ some result
    → Bounded lo hi result
kept-Bounded lo hi none result h p e = absurd cc
kept-Bounded lo hi (some m) result h (ends s) e =
    subst (Bounded lo hi) (some-injective e) (keep_offset-Bounded lo hi m h s)
  where
    some-injective : {a b : Outcome Dns} → some a ≡ some b → a ≡ b
    some-injective q = cc

-- Whatever the message, and as long as it is decoded, no byte outside the buffer is read, and a
-- call that ends leaves the offset between where it was and the end of the buffer; an error leaves
-- it where it was.
pub decode_dns-Bounded :
    (fuel : ℕ) (data' : Bytes) (offset : ℕ) (result : Outcome Dns)
    → offset ≤ length data'
    → decode_dns fuel data' offset ≡ some result
    → Bounded offset (length data') result
unfolding decode_dns
decode_dns-Bounded fuel data' offset result h e =
    kept-Bounded offset (length data') (dns_sections fuel data' offset) result h
      (dns_sections-Partial fuel data' offset) e
