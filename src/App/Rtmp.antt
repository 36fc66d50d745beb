-- ===== src/App/Rtmp.antt =====
-- Chunks of src/protocol/rtmp.cpp.
pub mod Bounds
use fdpi.Base.{
  ℕ, ◌+◌, ◌*◌, ◌/◌, ◌%◌, Bool, true, false, ◌&&◌, Option, none, some, [], length, drop, leb, ltb,
  ◌==◌, if◌then◌else◌,
}
use fdpi.Wire.{
  Bytes, Outcome, ok, err, truncated_header, malformed_packet, ◌>>=◌, and_then, at, be16, be32,
  copy,
}

pub record Rtmp : Type 0 where
  pub is_handshake : Bool
  pub handshake_type : ℕ
  pub chunk_type : ℕ
  pub chunk_stream_id : ℕ
  pub timestamp : ℕ
  pub message_length : ℕ
  pub message_type_id : ℕ
  pub message_stream_id : ℕ

-- Three bytes, the most significant first.
unfoldable pub be24 : Bytes → ℕ → Option ℕ
be24 p i = elim (at p i) [
  | none ↦ none
  | some a ↦ elim (be16 p (i + 1)) [ none ↦ none | some b ↦ some (a * 65536 + b) ]
]

-- Four bytes, the least significant first.
unfoldable pub le32 : Bytes → ℕ → Option ℕ
le32 p i = elim (fdpi.Wire.le16 p i) [
  | none ↦ none
  | some a ↦ elim (fdpi.Wire.le16 p (i + 2)) [ none ↦ none | some b ↦ some (a + b * 65536) ]
]

-- The stream's id in its forms of one, two and three bytes, `offset` behind the first.
unfoldable pub chunk_stream : ℕ → Bytes → ℕ → Outcome ℕ
chunk_stream cs_id data' offset =
    if cs_id == 0
    then (if leb (length data') offset
        then err truncated_header offset
        else do b ← at data' offset; ok (64 + b) (offset + 1))
    else if cs_id == 1
    then (if ltb (length data') (offset + 2)
        then err truncated_header offset
        else do a ← at data' offset; b ← at data' (offset + 1); ok (64 + a + 256 * b) (offset + 2))
    else ok cs_id offset

abbrev pub new_chunk : ℕ → ℕ → Rtmp
new_chunk chunk_type cs_id = record {
  is_handshake = false;
  handshake_type = 0;
  chunk_type = chunk_type;
  chunk_stream_id = cs_id;
  timestamp = 0;
  message_length = 0;
  message_type_id = 0;
  message_stream_id = 0;
}

-- The message header of a chunk: 11, 7, 3 or no bytes.
unfoldable pub message_header : ℕ → ℕ → Bytes → ℕ → Outcome Rtmp
message_header chunk_type cs_id data' offset =
    if chunk_type == 0
    then (if ltb (length data') (offset + 11) then err truncated_header offset else do
      timestamp ← be24 (drop offset data') 0
      message_length ← be24 (drop offset data') 3
      type ← at (drop offset data') 6
      stream ← le32 (drop offset data') 7
      ok
          (record (new_chunk chunk_type cs_id) {
            timestamp = timestamp;
            message_length = message_length;
            message_type_id = type;
            message_stream_id = stream;
          })
          (offset + 11))
    else if chunk_type == 1
    then (if ltb (length data') (offset + 7) then err truncated_header offset else do
      timestamp ← be24 (drop offset data') 0
      message_length ← be24 (drop offset data') 3
      type ← at (drop offset data') 6
      ok
          (record (new_chunk chunk_type cs_id) {
            timestamp = timestamp;
            message_length = message_length;
            message_type_id = type;
          })
          (offset + 7))
    else if chunk_type == 2
    then (if ltb (length data') (offset + 3) then err truncated_header offset else do
      timestamp ← be24 (drop offset data') 0
      ok (record (new_chunk chunk_type cs_id) { timestamp = timestamp }) (offset + 3))
    else ok (new_chunk chunk_type cs_id) offset

-- A first byte 3 at the start of the data is a handshake.
unfoldable pub decode_rtmp : Bytes → ℕ → Outcome Rtmp
decode_rtmp data' offset = if leb (length data') offset then err truncated_header offset else do
  first ← at data' offset
  if first == 3 && offset == 0
      then ok (record (new_chunk 0 0) { is_handshake = true }) (offset + 1)
      else and_then (chunk_stream (first % 64) data' (offset + 1))
          (λ cs_id offset'. message_header (first / 64 % 4) cs_id data' offset')
