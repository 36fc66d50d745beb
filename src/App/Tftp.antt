-- ===== src/App/Tftp.antt =====
-- `decodeTftp` of src/protocol/tftp.cpp. The decoder works on a copy of the offset, `pos`.
pub mod Bounds
pub mod RoundTrip
use fdpi.Base.{
  ℕ, zero, suc, ◌+◌, ◌||◌, List, [], ◌∷◌, ◌++◌, length, drop, ltb, ◌==◌, Bool, if◌then◌else◌,
}
use fdpi.Wire.{
  Bytes, Outcome, ok, err, truncated_header, malformed_packet, ◌>>=◌, and_then, at, be16, copy,
}

pub record Tftp : Type 0 where
  pub opcode : ℕ
  pub filename : Bytes
  pub mode : Bytes
  pub block_number : ℕ
  pub block_data : Bytes
  pub error_code : ℕ
  pub error_message : Bytes
  pub options : List (Bytes × Bytes)

unfoldable pub new_tftp : ℕ → Tftp
new_tftp opcode = record {
  opcode = opcode;
  filename = [];
  mode = [];
  block_number = 0;
  block_data = [];
  error_code = 0;
  error_message = [];
  options = [];
}

-- `readNullTerminated` over what is left at `pos`: a text up to its null, which is skipped, or to the end.
unfoldable pub read_null_terminated : Bytes → ℕ → Bytes × ℕ
read_null_terminated [] pos = ([], pos)
read_null_terminated (b ∷ s) pos =
    let (text, pos') = read_null_terminated s (pos + 1) in
    if b == 0 then ([], pos + 1) else (b ∷ text, pos')

-- The options of RFC 2347, on fuel: a name that is not empty takes a byte at least.
unfoldable pub tftp_options : ℕ → Bytes → ℕ → List (Bytes × Bytes) × ℕ
tftp_options zero data' pos = ([], pos)
tftp_options (suc fuel) data' pos =
    let (name, pos1) = read_null_terminated (drop pos data') pos in
    let (value, pos2) = read_null_terminated (drop pos1 data') pos1 in
    let (options, pos3) = tftp_options fuel data' pos2 in
    if ltb pos (length data')
    then (if length name == 0 then ([], pos1) else ((name, value) ∷ options, pos3))
    else ([], pos)

-- RRQ and WRQ.
unfoldable pub tftp_request : ℕ → Bytes → ℕ → Outcome Tftp
tftp_request opcode data' pos =
    let (filename, pos1) = read_null_terminated (drop pos data') pos in
    let (mode, pos2) = read_null_terminated (drop pos1 data') pos1 in
    let (options, pos3) = tftp_options (suc (length data')) data' pos2 in
    ok (record (new_tftp opcode) { filename = filename; mode = mode; options = options }) pos3

unfoldable pub tftp_data : ℕ → Bytes → ℕ → Outcome Tftp
tftp_data offset data' pos =
    if ltb (length data') (pos + 2) then err truncated_header offset else do
      block ← be16 data' pos
      ok (record (new_tftp 3) { block_number = block; block_data = drop (pos + 2) data' })
          (length data')

unfoldable pub tftp_ack : ℕ → Bytes → ℕ → Outcome Tftp
tftp_ack offset data' pos =
    if ltb (length data') (pos + 2)
    then err truncated_header offset
    else do block ← be16 data' pos; ok (record (new_tftp 4) { block_number = block }) (pos + 2)

unfoldable pub tftp_error : ℕ → Bytes → ℕ → Outcome Tftp
tftp_error offset data' pos =
    if ltb (length data') (pos + 2) then err truncated_header offset else do
      code ← be16 data' pos
      let (message, pos1) = read_null_terminated (drop (pos + 2) data') (pos + 2)
      ok (record (new_tftp 5) { error_code = code; error_message = message }) pos1

unfoldable pub decode_tftp : Bytes → ℕ → Outcome Tftp
decode_tftp data' offset =
    if ltb (length data') (offset + 2) then err truncated_header offset else do
      opcode ← be16 data' offset
      if opcode == 1 || opcode == 2
          then tftp_request opcode data' (offset + 2)
          else if opcode == 3
          then tftp_data offset data' (offset + 2)
          else if opcode == 4
          then tftp_ack offset data' (offset + 2)
          else if opcode == 5
          then tftp_error offset data' (offset + 2)
          else err malformed_packet offset
