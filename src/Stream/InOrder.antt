-- ===== src/Stream/InOrder.antt =====
-- `process` of src/reassembly.cpp on a segment that starts at the expected number.
use fdpi.Base.{
  ℕ, zero, suc, ◌+◌, ◌^◌, ◌≤◌, ◌<◌, ◌≡◌, refl, sym, ap, ◌∙◌, true, false, none, some, List, [], ◌∷◌,
  ◌++◌, length, ltb, ◌==◌, arith, append-nil, Option-cases, inl, inr, append_assoc, ==_refl,
  if_true, if_false,
}
use fdpi.Base.Ordered.{find, put, find-put, length-put-pos}
use fdpi.Wire.{Bytes}
use fdpi.Header.Transport.{Tcp, syn}
use fdpi.Stream.{
  StreamBuffer, seq_before_or_equal, take_segment, assemble, is_retransmission, delivered, store,
  process_data, process_stream,
}
use fdpi.Stream.Buffer.{assemble-find}
use fdpi.Stream.Delivery.{start_started}

-- What the loop has appended comes behind what was there.
assemble-append :
    (fuel : ℕ) (s : StreamBuffer) (out : Bytes)
    → (rest : Bytes) × ((assemble fuel s out).1 ≡ out ++ rest)
unfolding assemble
assemble-append zero s out = ([], sym (append-nil out))
assemble-append (suc fuel) s out = elim (Option-cases (find s.next_expected_seq s.segments)) [
  | inl f ↦ ([], rw (f, assemble) (sym (append-nil out)))
  | inr (d, f) ↦
      let (rest, e) = assemble-append fuel (take_segment s d) (out ++ d) in
      (d ++ rest, rw (f, assemble) (e ∙ append_assoc out d rest))
]

new_segment :
    (s : StreamBuffer) (payload : Bytes)
    → s.next_expected_seq < 2 ^ 32
    → 0 < length payload
    → length payload < 2 ^ 31
    → find s.next_expected_seq s.segments ≡ none
    → is_retransmission s s.next_expected_seq payload ≡ false
unfolding is_retransmission seq_before_or_equal
new_segment s payload range pos short free = ground arith

assemble_step :
    (fuel : ℕ) (s : StreamBuffer) (d : Bytes)
    → 0 < fuel
    → find s.next_expected_seq s.segments ≡ some d
    → (rest : Bytes) × ((assemble fuel s []).1 ≡ d ++ rest)
unfolding assemble
assemble_step zero s d h f = absurd (omega arith)
assemble_step (suc fuel) s d h f = rw (f, assemble) (assemble-append fuel (take_segment s d) d)

delivered-some :
    (out payload rest : Bytes)
    → 0 < length payload
    → out ≡ payload ++ rest
    → ((delivered out).data' ≡ some (payload ++ rest)) × ((delivered out).retransmission ≡ false)
unfolding delivered
delivered-some out [] rest pos e = absurd (omega arith)
delivered-some out (b ∷ bs) rest pos e = rw e (refl, refl)

-- The segment is stored, delivered first of all, and the loop runs to its end.
store-in_order :
    (s : StreamBuffer) (payload : Bytes)
    → 0 < length payload
    → let (s', result) = store s s.next_expected_seq payload in
      ((rest : Bytes) × (result.data' ≡ some (payload ++ rest)))
      × (result.retransmission ≡ false)
      × (find s'.next_expected_seq s'.segments ≡ none)
unfolding store
store-in_order s payload pos =
    let (rest, e) =
      assemble_step (length m) stored payload (length-put-pos k payload s.segments) first in
    let (some_data, flag) = delivered-some _ payload rest pos e in
    ((rest, some_data), flag, assemble-find (length m) stored [] (omega arith))
  where
    k : ℕ
    k = s.next_expected_seq

    m : List (ℕ × Bytes)
    m = put k payload s.segments

    stored : StreamBuffer
    stored = record s { segments = m; total_bytes = s.total_bytes + length payload }

    first : find k m ≡ some payload
    first = find-put k k payload s.segments ∙ if_true (k == k) _ _ (==_refl k)

accepted :
    (limit : ℕ) (s : StreamBuffer) (header : Tcp) (payload : Bytes)
    → syn header ≡ false
    → s.syn_seen ≡ true
    → header.seq_num ≡ s.next_expected_seq
    → 0 < length payload
    → s.total_bytes + length payload ≤ limit
    → is_retransmission s s.next_expected_seq payload ≡ false
    → process_stream limit s header payload ≡ store s s.next_expected_seq payload
unfolding process_stream process_data
accepted limit s header payload p started seq pos fits new =
    if_false (syn header) _ _ p
    ∙ if_false (length payload == 0) _ _ (ground arith)
    ∙ ap (λ t. process_data limit t header.seq_num payload) (start_started s header.seq_num started)
    ∙ ap (λ q. process_data limit s q payload) seq
    ∙ if_false (ltb limit (s.total_bytes + length payload)) _ _ (ground arith)
    ∙ if_false (is_retransmission s s.next_expected_seq payload) _ _ new

-- In a stream that has seen a SYN, a segment without SYN whose data, fewer than 2^31 bytes, is at the expected
-- number, where no segment waits, with room under the limit: the result begins with that data,
-- no retransmission is reported, and afterwards no segment waits at the expected number.
pub process_stream-in_order :
    (limit : ℕ) (s : StreamBuffer) (header : Tcp) (payload : Bytes)
    → syn header ≡ false
    → s.syn_seen ≡ true
    → s.next_expected_seq < 2 ^ 32
    → header.seq_num ≡ s.next_expected_seq
    → find s.next_expected_seq s.segments ≡ none
    → 0 < length payload
    → length payload < 2 ^ 31
    → s.total_bytes + length payload ≤ limit
    → let (s', result) = process_stream limit s header payload in
      ((rest : Bytes) × (result.data' ≡ some (payload ++ rest)))
      × (result.retransmission ≡ false)
      × (find s'.next_expected_seq s'.segments ≡ none)
process_stream-in_order limit s header payload p started range seq free pos short fits =
    rw
      (accepted limit s header payload p started seq pos fits
        (new_segment s payload range pos short free))
      (store-in_order s payload pos)
