-- ===== src/Stream/OutOfOrder.antt =====
-- `process` of src/reassembly.cpp on a segment that does not start at the expected number.
use fdpi.Base.{
  ℕ, ◌+◌, ◌≤◌, ◌≡◌, ◌≢◌, refl, ap, ◌∙◌, true, false, none, some, List, [], ◌∷◌, length, ltb, arith,
  if_false, zero, suc,
}
use fdpi.Base.Ordered.{find, put, find-put, IsSorted, find-Above}
use fdpi.Wire.{Bytes}
use fdpi.Header.Transport.{Tcp, syn}
use fdpi.Stream.{
  StreamBuffer, nothing, assemble, is_retransmission, delivered, store, process_data,
  process_stream,
}
use fdpi.Stream.Buffer.{held}
use fdpi.Stream.Delivery.{start_started}

assemble_idle :
    (fuel : ℕ) (s : StreamBuffer) (out : Bytes)
    → find s.next_expected_seq s.segments ≡ none
    → assemble fuel s out ≡ (s, out)
unfolding assemble
assemble_idle zero s out f = refl
assemble_idle (suc fuel) s out f = rw (f, assemble)

-- What `store` makes of the buffer before the loop.
abbrev waiting : StreamBuffer → ℕ → Bytes → StreamBuffer
waiting s seq payload = record s {
  segments = put seq payload s.segments;
  total_bytes = s.total_bytes + length payload;
}

store_waits :
    (s : StreamBuffer) (seq : ℕ) (payload : Bytes)
    → seq ≢ s.next_expected_seq
    → find s.next_expected_seq s.segments ≡ none
    → store s seq payload ≡ (waiting s seq payload, nothing)
unfolding store delivered
store_waits s seq payload ne free = rw (assemble_idle _ (waiting s seq payload) [] still)
  where
    still : find s.next_expected_seq (put seq payload s.segments) ≡ none
    still = ground (arith, find-put seq s.next_expected_seq payload s.segments)

-- Where no segment waits at the expected number, a segment with another number delivers nothing
-- and leaves the expected number as it was, also when it covers the expected number's byte.
pub process_stream_waits :
    (limit : ℕ) (s : StreamBuffer) (header : Tcp) (payload : Bytes)
    → syn header ≡ false
    → s.syn_seen ≡ true
    → header.seq_num ≢ s.next_expected_seq
    → find s.next_expected_seq s.segments ≡ none
    → let (s', result) = process_stream limit s header payload in
      (result.data' ≡ none) × (s'.next_expected_seq ≡ s.next_expected_seq)
unfolding process_stream process_data
process_stream_waits limit s header payload p started ne free =
    ground
      (arith, start_started s header.seq_num started, store_waits s header.seq_num payload ne free)

held-put_old :
    (k : ℕ) (d : Bytes) (m : List (ℕ × Bytes)) (old : Bytes)
    → IsSorted m
    → find k m ≡ some old
    → held (put k d m) + length old ≡ held m + length d
unfolding held put find
held-put_old k d [] old sorted f = cc
held-put_old k d ((j, w) ∷ m) old sorted f =
    ground (arith, held-put_old k d m old sorted.1, find-Above k j m sorted.0, same)
  where
    same : some w ≡ some old → length w ≡ length old
    same e = cc

-- A segment that replaces another of its number but of another length, and that is no
-- retransmission, is counted in full, while the bytes that it replaces stay counted too: the
-- count exceeds what is held by their length more than before.
pub process_data_leaks :
    (limit : ℕ) (s : StreamBuffer) (seq : ℕ) (payload old : Bytes)
    → s.total_bytes + length payload ≤ limit
    → is_retransmission s seq payload ≡ false
    → seq ≢ s.next_expected_seq
    → find s.next_expected_seq s.segments ≡ none
    → IsSorted s.segments
    → find seq s.segments ≡ some old
    → let (s', _) = process_data limit s seq payload in
      (s'.total_bytes ≡ s.total_bytes + length payload)
      × (held s'.segments + length old ≡ held s.segments + length payload)
unfolding process_data
process_data_leaks limit s seq payload old fits new ne free sorted f =
    let e : process_data limit s seq payload ≡ (waiting s seq payload, nothing) =
      if_false (ltb limit (s.total_bytes + length payload)) _ _ (ground arith)
      ∙ if_false (is_retransmission s seq payload) _ _ new
      ∙ store_waits s seq payload ne free in
    (
      ap (λ r. r.0.total_bytes) e,
      ap (λ r. held r.0.segments + length old) e ∙ held-put_old seq payload s.segments old sorted f,
    )
