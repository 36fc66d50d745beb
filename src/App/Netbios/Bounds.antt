-- ===== src/App/Netbios/Bounds.antt =====
-- The reads and offsets of src/protocol/nbns.cpp and nbdgm.cpp.
use fdpi.Wire.Ensures.{
  Succeeds-Bounded, Succeeds, succeeds, Succeeds-if, Succeeds-read, Succeeds-after,
  Bounded-Succeeds, ltb-eq_false,
}
use fdpi.Wire.Bounded.{
  Bounded, returns, fails, Bounded-if, Bounded-at, Bounded-be16, Bounded-copy, at-Readable,
  be16-Readable, be32-Readable, copy-Readable,
}
use fdpi.Base.{
  ℕ, zero, suc, ◌+◌, ◌*◌, ◌%◌, ◌≤◌, ◌&&◌, ◌||◌, [], length, drop, length-drop, leb, ltb, ◌==◌,
  arith, if-elim, List,
}
use fdpi.Wire.{Bytes}
use fdpi.App.Netbios.{
  netbios_pairs, scope_labels, skip_null, decode_netbios_name, decode_nbns_name, nbns_questions,
  nbns_rdata, nbns_records, nbns_body, decode_nbns, datagram_names, decode_nbdgm, NbnsQuestion,
  NbnsRecord, Nbdgm,
}

module _ (data' : Bytes) where
  scope_labels-Succeeds :
      (fuel o : ℕ) (result : Bytes)
      → o ≤ length data'
      → Succeeds (length data') (scope_labels fuel data' o result)
  unfolding scope_labels
  scope_labels-Succeeds zero o result h = succeeds h
  scope_labels-Succeeds (suc fuel) o result h =
      Succeeds-if (leb (length data') o) (λ _. succeeds h)
        λ more. Succeeds-read _ (at-Readable data' o (ground arith)) λ n.
          Succeeds-if (n == 0) (λ _. succeeds h)
            λ _.
              Succeeds-if (ltb (length data') (o + 1 + n)) (λ _. succeeds (ground arith))
                λ fits.
                  Succeeds-read _ (copy-Readable data' (o + 1) n (ground arith))
                    λ label. scope_labels-Succeeds fuel (o + 1 + n) _ (ground arith)

  skip_null-Succeeds :
      (result : Bytes) (o : ℕ)
      → o ≤ length data'
      → Succeeds (length data') (skip_null result data' o)
  unfolding skip_null
  skip_null-Succeeds result o h =
      Succeeds-if (leb (length data') o) (λ _. succeeds h)
        λ more.
          Succeeds-read _ (at-Readable data' o (ground arith))
            λ b. succeeds (if-elim (λ k. k ≤ length data') (b == 0) (λ _. ground arith) λ _. h)

  -- A name may be looked for behind the end, where none is.
  decode_netbios_name-Succeeds :
      (hi o : ℕ) → length data' ≤ hi → o ≤ hi → Succeeds hi (decode_netbios_name data' o)
  unfolding decode_netbios_name
  decode_netbios_name-Succeeds hi o top h =
      Succeeds-if (leb (length data') o) (λ _. succeeds h)
        λ more. Succeeds-read _ (at-Readable data' o (ground arith)) λ n.
          Succeeds-if (n == 0 || ltb (length data') (o + 1 + n)) (λ _. succeeds (ground arith))
            λ fits. Succeeds-read _ (copy-Readable data' (o + 1) n (ground arith)) λ label.
              Succeeds-after
                (scope_labels-Succeeds (length data') (o + 1 + n) (netbios_pairs label)
                  (ground arith))
                λ result o1 u1.
                  Succeeds-after (skip_null-Succeeds result o1 u1)
                    λ result' o2 u2. succeeds (omega arith)

  decode_nbns_name-Succeeds :
      (o : ℕ) → o ≤ length data' → Succeeds (length data') (decode_nbns_name data' o)
  unfolding decode_nbns_name
  decode_nbns_name-Succeeds o h =
      Succeeds-if (leb (length data') o) (λ _. succeeds h)
        λ more. Succeeds-read _ (at-Readable data' o (ground arith)) λ first.
          Succeeds-if (leb 192 first)
            (λ _.
              Succeeds-if (leb (length data') (o + 1)) (λ _. succeeds h)
                λ two. Succeeds-read _ (at-Readable data' (o + 1) (ground arith)) λ low.
                  Succeeds-after
                    (decode_netbios_name-Succeeds (length data' + (first % 64 * 256 + low))
                      (first % 64 * 256 + low) (omega arith) (omega arith))
                    λ _ _ _. succeeds (ground arith))
            λ _. decode_netbios_name-Succeeds (length data') o (omega arith) h

  nbns_questions-Succeeds :
      (count o : ℕ) (questions : List NbnsQuestion)
      → o ≤ length data'
      → Succeeds (length data') (nbns_questions count data' o questions)
  unfolding nbns_questions
  nbns_questions-Succeeds zero o questions h = succeeds h
  nbns_questions-Succeeds (suc count) o questions h =
      Succeeds-if (leb (length data') o) (λ _. succeeds h)
        λ _. Succeeds-after (decode_nbns_name-Succeeds o h) λ name o1 u1.
          Succeeds-if (ltb (length data') (o1 + 4)) (λ _. succeeds u1)
            λ fits. Succeeds-read _ (be16-Readable data' o1 (ground arith)) λ _.
              Succeeds-read _ (be16-Readable data' (o1 + 2) (ground arith))
                λ _. nbns_questions-Succeeds count (o1 + 4) _ (ground arith)

  nbns_rdata-Succeeds :
      (o n : ℕ) → o ≤ length data' → Succeeds (length data') (nbns_rdata data' o n)
  unfolding nbns_rdata
  nbns_rdata-Succeeds o n h =
      Succeeds-if (leb (o + n) (length data'))
        (λ fits.
          Succeeds-read _ (copy-Readable data' o n (ground arith)) λ _. succeeds (ground arith))
        λ _. succeeds h

  nbns_records-Succeeds :
      (count o : ℕ) (records : List NbnsRecord)
      → o ≤ length data'
      → Succeeds (length data') (nbns_records count data' o records)
  unfolding nbns_records
  nbns_records-Succeeds zero o records h = succeeds h
  nbns_records-Succeeds (suc count) o records h =
      Succeeds-if (leb (length data') o) (λ _. succeeds h)
        λ _. Succeeds-after (decode_nbns_name-Succeeds o h) λ name o1 u1.
          Succeeds-if (ltb (length data') (o1 + 10)) (λ _. succeeds u1)
            λ fits. Succeeds-read _ (be16-Readable data' o1 (ground arith)) λ _.
              Succeeds-read _ (be16-Readable data' (o1 + 2) (ground arith)) λ _.
                Succeeds-read _ (be32-Readable data' (o1 + 4) (ground arith)) λ _.
                  Succeeds-read _ (be16-Readable data' (o1 + 8) (ground arith)) λ n.
                    Succeeds-after (nbns_rdata-Succeeds (o1 + 10) n (ground arith))
                      λ _ o2 u2. nbns_records-Succeeds count o2 _ u2

nbns_body-Succeeds :
    (data' : Bytes) (o id flags qd an ns ar : ℕ)
    → o ≤ length data'
    → Succeeds (length data') (nbns_body data' o id flags qd an ns ar)
unfolding nbns_body
nbns_body-Succeeds data' o id flags qd an ns ar h =
    Succeeds-after (nbns_questions-Succeeds data' qd o [] h) λ _ o1 u1.
      Succeeds-after (nbns_records-Succeeds data' an o1 [] u1) λ _ o2 u2.
        Succeeds-after (nbns_records-Succeeds data' ns o2 [] u2)
          λ _ o3 u3. Succeeds-after (nbns_records-Succeeds data' ar o3 [] u3) λ _ o4 u4. succeeds u4

-- `decodeNbns` reads inside the buffer, whatever names and counts the message has, and with a whole header
-- it always gives a message, whose end lies inside the buffer.
pub decode_nbns-Succeeds :
    (data' : Bytes) (o : ℕ) → o + 12 ≤ length data' → Succeeds (length data') (decode_nbns data' o)
unfolding decode_nbns
decode_nbns-Succeeds data' o h =
    let room : 12 ≤ length (drop o data') = omega (arith, length-drop o data') in
    Succeeds-if (ltb (length data') (o + 12)) (λ short. absurd (ground arith))
      λ _. Succeeds-read _ (be16-Readable _ 0 (omega arith)) λ _.
        Succeeds-read _ (be16-Readable _ 2 (omega arith)) λ _.
          Succeeds-read _ (be16-Readable _ 4 (omega arith)) λ qd.
            Succeeds-read _ (be16-Readable _ 6 (omega arith)) λ an.
              Succeeds-read _ (be16-Readable _ 8 (omega arith)) λ ns.
                Succeeds-read _ (be16-Readable _ 10 (omega arith))
                  λ ar. nbns_body-Succeeds data' (o + 12) _ _ qd an ns ar h

pub decode_nbns-Bounded :
    (data' : Bytes) (o : ℕ) → o ≤ length data' → Bounded 0 (length data') (decode_nbns data' o)
unfolding decode_nbns
decode_nbns-Bounded data' o h =
    Bounded-if (ltb (length data') (o + 12)) (λ _. fails (omega arith) h)
      λ fits.
        let room : 12 ≤ length (drop o data') = ground (arith, length-drop o data') in
        Bounded-be16 _ _ (omega arith) λ id. Bounded-be16 _ _ (omega arith) λ flags.
          Bounded-be16 _ _ (omega arith) λ qd. Bounded-be16 _ _ (omega arith) λ an.
            Bounded-be16 _ _ (omega arith) λ ns. Bounded-be16 _ _ (omega arith) λ ar.
              Succeeds-Bounded
                (nbns_body-Succeeds data' (o + 12) id flags qd an ns ar (ltb-eq_false _ _ fits))

datagram_names-Bounded :
    (data' : Bytes) (o : ℕ) (hdr : Nbdgm)
    → o ≤ length data'
    → Bounded 0 (length data') (datagram_names data' o hdr)
unfolding datagram_names
datagram_names-Bounded data' o hdr h =
    Bounded-if (leb 16 hdr.message_type && leb hdr.message_type 18)
      (λ _.
        Bounded-if (ltb (length data') (o + 4)) (λ _. fails (omega arith) h)
          λ fits. Bounded-be16 data' o (ground arith) λ _.
            Bounded-be16 data' (o + 2) (ground arith) λ _.
              Bounded-Succeeds
                (decode_netbios_name-Succeeds data' (length data') (o + 4) (omega arith)
                  (ground arith))
                λ _ o1 u1.
                  Bounded-Succeeds
                    (decode_netbios_name-Succeeds data' (length data') o1 (omega arith) u1)
                    λ _ o2 u2. returns (omega arith) u2)
      λ _. returns (omega arith) h

pub decode_nbdgm-Bounded :
    (data' : Bytes) (o : ℕ) → o ≤ length data' → Bounded 0 (length data') (decode_nbdgm data' o)
unfolding decode_nbdgm
decode_nbdgm-Bounded data' o h =
    Bounded-if (ltb (length data') (o + 10)) (λ _. fails (omega arith) h)
      λ fits.
        let room : 10 ≤ length (drop o data') = ground (arith, length-drop o data') in
        Bounded-at _ _ (omega arith) λ _. Bounded-at _ _ (omega arith) λ _.
          Bounded-be16 _ _ (omega arith) λ _. Bounded-copy _ _ _ (omega arith) λ _.
            Bounded-be16 _ _ (omega arith)
              λ _. datagram_names-Bounded data' (o + 10) _ (ground arith)
