-- ===== src/Stream.antt =====
-- src/reassembly.cpp: TCP stream reassembly. A flow's buffer is a record, the map of flows an
-- association list, and `process` returns the map with its result. Sequence numbers are taken
-- modulo 2 ^ 32, as `uint32_t` is; byte counts are plain numbers.
pub mod Buffer
pub mod Delivery
pub mod Prefix
pub mod InOrder
pub mod OutOfOrder
use fdpi.Base.{
  ℕ, zero, suc, ◌+◌, ◌-◌, ◌%◌, ◌^◌, Bool, true, false, ◌||◌, Option, none, some, List, [], ◌∷◌,
  ◌++◌, length, ltb, leb, ◌==◌, if◌then◌else◌,
}
use fdpi.Base.Assoc.{lookup, insert}
use fdpi.Base.Ordered.{find, put, remove}
use fdpi.Wire.{Bytes}
use fdpi.Header.Transport.{Tcp, syn}
use fdpi.Flow.{FlowId, flow_id_eq}

-- `uint32_t` arithmetic.
abbrev pub add32 : ℕ → ℕ → ℕ
add32 a b = (a + b) % 2 ^ 32

abbrev pub sub32 : ℕ → ℕ → ℕ
sub32 a b = (a + 2 ^ 32 - b) % 2 ^ 32

-- `static_cast<int32_t>(a - b) <= 0`: the difference is zero, or its sign bit is set.
unfoldable pub seq_before_or_equal : ℕ → ℕ → Bool
seq_before_or_equal a b = sub32 a b == 0 || leb (2 ^ 31) (sub32 a b)

-- `StreamBuffer`; its `lastSeen` is never read or written.
pub record StreamBuffer : Type 0 where
  pub segments : List (ℕ × Bytes)
  pub next_expected_seq : ℕ
  pub syn_seen : Bool
  pub total_bytes : ℕ

abbrev pub fresh : StreamBuffer
fresh = record { segments = []; next_expected_seq = 0; syn_seen = false; total_bytes = 0 }

pub record ReassemblyResult : Type 0 where
  pub data' : Option Bytes
  pub retransmission : Bool

abbrev pub nothing : ReassemblyResult
nothing = record { data' = none; retransmission = false }

abbrev pub repeated : ReassemblyResult
repeated = record { data' = none; retransmission = true }

-- One round of the assembly loop, at a segment that starts at the expected number.
unfoldable pub take_segment : StreamBuffer → Bytes → StreamBuffer
take_segment s d = record s {
  segments = remove s.next_expected_seq s.segments;
  next_expected_seq = add32 s.next_expected_seq (length d);
  total_bytes = s.total_bytes - length d;
}

-- The assembly loop: while there is a segment at the expected number, append it to `out`. Each
-- round takes a segment out, so that their count bounds the rounds.
unfoldable pub assemble : ℕ → StreamBuffer → Bytes → StreamBuffer × Bytes
assemble zero s out = (s, out)
assemble (suc fuel) s out = elim (find s.next_expected_seq s.segments) [
  | none ↦ (s, out)
  | some d ↦ assemble fuel (take_segment s d) (out ++ d)
]

-- Cases 1 and 2 of the retransmission test.
unfoldable pub is_retransmission : StreamBuffer → ℕ → Bytes → Bool
is_retransmission s seq payload =
    if seq_before_or_equal (add32 seq (length payload)) s.next_expected_seq
    then true
    else elim (find seq s.segments) [ none ↦ false | some d ↦ length d == length payload ]

-- `result.empty() ? std::nullopt : std::optional(std::move(result))`
unfoldable pub delivered : Bytes → ReassemblyResult
delivered [] = nothing
delivered (b ∷ bs) = record { data' = some (b ∷ bs); retransmission = false }

-- The segment is stored, and what is in order by now is delivered.
unfoldable pub store : StreamBuffer → ℕ → Bytes → StreamBuffer × ReassemblyResult
store s seq payload =
    let s' = record s {
      segments = put seq payload s.segments;
      total_bytes = s.total_bytes + length payload;
    } in
    let (s'', out) = assemble (length s'.segments) s' [] in (s'', delivered out)

-- The stream's first segment with data sets the expected number if no SYN was seen.
unfoldable pub start : StreamBuffer → ℕ → StreamBuffer
start s seq = if s.syn_seen then s else record s { syn_seen = true; next_expected_seq = seq }

unfoldable pub process_data : ℕ → StreamBuffer → ℕ → Bytes → StreamBuffer × ReassemblyResult
process_data max_stream_bytes s seq payload =
    if ltb max_stream_bytes (s.total_bytes + length payload)
    then (s, nothing)
    else if is_retransmission s seq payload
    then (s, repeated)
    else store s seq payload

-- `process` on the buffer of the flow.
unfoldable pub process_stream : ℕ → StreamBuffer → Tcp → Bytes → StreamBuffer × ReassemblyResult
process_stream max_stream_bytes s header payload =
    if syn header
    then (
      record s { syn_seen = true; next_expected_seq = add32 header.seq_num 1 },
      record { data' = none; retransmission = s.syn_seen },
    )
    else if length payload == 0
    then (s, nothing)
    else process_data max_stream_bytes (start s header.seq_num) header.seq_num payload

abbrev pub Streams : Type 0
Streams = List (FlowId × StreamBuffer)

-- `mImpl->streams[flowId]`: a flow that is new gets a fresh buffer.
unfoldable pub stream_of : FlowId → Streams → StreamBuffer
stream_of id m = elim (lookup id m) [ none ↦ fresh | some s ↦ s ]

unfoldable pub process : ℕ → Streams → FlowId → Tcp → Bytes → Streams × ReassemblyResult
process max_stream_bytes streams id header payload =
    let (s, result) = process_stream max_stream_bytes (stream_of id streams) header payload in
    (insert id s streams, result)
