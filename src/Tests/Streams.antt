-- ===== src/Tests/Streams.antt =====
-- A stream of six bytes behind a handshake, whose second half arrives first.
use fdpi.Base.{
  ℕ, ◌+◌, ◌^◌, ◌≤◌, ◌<◌, ◌≡◌, refl, true, false, none, some, List, [], ◌∷◌, ◌++◌, length, take,
  arith,
}
use fdpi.Base.Slices.{slice}
use fdpi.Base.Ordered.{find, IsSorted}
use fdpi.Wire.{Bytes}
use fdpi.Header.Transport.{Tcp, syn}
use fdpi.Stream.{
  StreamBuffer, fresh, assemble, process_data, process_stream, is_retransmission,
  seq_before_or_equal,
}
use fdpi.Stream.Buffer.{held, IsBounded, assemble-find, process_stream-IsBounded}
use fdpi.Stream.Delivery.{IsSegment}
use fdpi.Stream.Prefix.{run, AreSegments, run-prefix}
use fdpi.Stream.InOrder.{process_stream-in_order}
use fdpi.Stream.OutOfOrder.{process_stream_waits, process_data_leaks}

abbrev segment : ℕ → ℕ → Tcp
segment seq flags = record {
  src_port = 1000;
  dst_port = 80;
  seq_num = seq;
  ack_num = 0;
  data_offset = 5;
  flags = flags;
  window = 100;
  checksum = 0;
  urgent_pointer = 0;
  options = [];
}

abbrev sent : Bytes
sent = 10 ∷ 11 ∷ 12 ∷ 13 ∷ 14 ∷ 15 ∷ []

abbrev first_half : Bytes
first_half = 10 ∷ 11 ∷ 12 ∷ []

abbrev second_half : Bytes
second_half = 13 ∷ 14 ∷ 15 ∷ []

abbrev arriving : List (Tcp × Bytes)
arriving =
    (segment 103 16, second_half) ∷ (segment 100 16, first_half) ∷ (segment 100 16, first_half) ∷ []

short : length sent < 2 ^ 32
short = omega arith

handshake_syn : syn (segment 99 2) ≡ true
unfolding syn
handshake_syn = refl

data_syn : (seq : ℕ) → syn (segment seq 16) ≡ false
unfolding syn
data_syn seq = refl

first-IsSegment : IsSegment 100 sent 100 first_half
unfolding slice
first-IsSegment = record { position = 0; numbered = refl; inside = omega arith; copied = refl }

second-IsSegment : IsSegment 100 sent 103 second_half
unfolding slice
second-IsSegment = record { position = 3; numbered = refl; inside = omega arith; copied = refl }

arriving-AreSegments : AreSegments 100 sent arriving
arriving-AreSegments = (
  data_syn 103,
  second-IsSegment,
  (data_syn 100, first-IsSegment, (data_syn 100, first-IsSegment, tt)),
)

run-prefix_example :
    (m : ℕ) × ((run 64 (process_stream 64 fresh (segment 99 2) []).0 arriving).1 ≡ take m sent)
run-prefix_example =
    run-prefix 99 sent 64 (segment 99 2) arriving short handshake_syn refl arriving-AreSegments

-- The stream with its second half waiting.
abbrev half : StreamBuffer
half = record {
  segments = (103, second_half) ∷ [];
  next_expected_seq = 100;
  syn_seen = true;
  total_bytes = 3;
}

half-free : find 100 half.segments ≡ none
unfolding find
half-free = refl

three : length first_half ≡ 3
three = refl

in_order_example :
    let (s', result) = process_stream 64 half (segment 100 16) first_half in
    ((rest : Bytes) × (result.data' ≡ some (first_half ++ rest)))
    × (result.retransmission ≡ false)
    × (find s'.next_expected_seq s'.segments ≡ none)
in_order_example =
    process_stream-in_order 64 half (segment 100 16) first_half (data_syn 100) refl (omega arith)
      refl half-free (omega (arith, three)) (omega (arith, three)) (omega (arith, three))

half-IsBounded : IsBounded 64 half
unfolding held
half-IsBounded = record { counted = omega arith; limited = omega arith }

IsBounded_example : IsBounded 64 (process_stream 64 half (segment 100 16) first_half).0
IsBounded_example = process_stream-IsBounded 64 half (segment 100 16) first_half half-IsBounded

one_segment : length half.segments ≤ 1
one_segment = omega arith

assemble-find_example :
    let (s', _) = assemble 1 half [] in find s'.next_expected_seq s'.segments ≡ none
assemble-find_example = assemble-find 1 half [] one_segment

-- A segment that covers the expected byte 100, and starts in front of it.
waits_example :
    let (s', result) = process_stream 64 half (segment 98 16) (8 ∷ 9 ∷ first_half) in
    (result.data' ≡ none) × (s'.next_expected_seq ≡ 100)
waits_example =
    process_stream_waits 64 half (segment 98 16) (8 ∷ 9 ∷ first_half) (data_syn 98) refl
      (λ e. omega arith) half-free

-- A longer segment at the number of the one that waits.
longer_new : is_retransmission half 103 (13 ∷ second_half) ≡ false
unfolding is_retransmission seq_before_or_equal find
longer_new = refl

longer_fits : 3 + length (13 ∷ second_half) ≤ 64
longer_fits = omega arith

half-IsSorted : IsSorted half.segments
half-IsSorted = (tt, tt)

half-second : find 103 half.segments ≡ some second_half
unfolding find
half-second = refl

leaks_example :
    let (s', _) = process_data 64 half 103 (13 ∷ second_half) in
    (s'.total_bytes ≡ 3 + length (13 ∷ second_half))
    × (held s'.segments + length second_half ≡ held half.segments + length (13 ∷ second_half))
leaks_example =
    process_data_leaks 64 half 103 (13 ∷ second_half) second_half longer_fits longer_new
      (λ e. omega arith) half-free half-IsSorted half-second
