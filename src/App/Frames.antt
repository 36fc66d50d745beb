-- ===== src/App/Frames.antt =====
-- Decoders of binary headers: src/protocol/quic.cpp, smb.cpp and srvloc.cpp.
pub mod Bounds
use fdpi.Base.{
  ℕ, ◌+◌, ◌*◌, ◌/◌, ◌%◌, Bool, true, false, ◌&&◌, Option, none, some, [], length, drop, leb, ltb,
  ◌==◌, if◌then◌else◌,
}
use fdpi.Wire.{
  Bytes, Outcome, ok, err, truncated_header, malformed_packet, ◌>>=◌, and_then, at, be16, be32,
  copy,
}

pub record Quic : Type 0 where
  pub is_long_header : Bool
  pub version : ℕ
  pub dcid : Bytes
  pub scid : Bytes
  pub packet_type : ℕ

-- A connection id behind its length. An error leaves the decoder's offset as it was.
unfoldable pub connection_id : ℕ → Bytes → ℕ → Outcome Bytes
connection_id offset data' pos = if leb (length data') pos then err truncated_header offset else do
  len ← at data' pos
  if ltb (length data') (pos + 1 + len)
      then err truncated_header offset
      else (do id ← copy data' (pos + 1) len; ok id (pos + 1 + len))

-- Of the four bytes of the version the last one is kept.
unfoldable pub quic_long : ℕ → Bytes → ℕ → Outcome Quic
quic_long first data' offset =
    if ltb (length data') (offset + 7) then err truncated_header offset else do
      version ← be32 (drop offset data') 1
      and_then (connection_id offset data' (offset + 5)) λ dcid pos1.
          and_then (connection_id offset data' pos1) λ scid pos2.
            ok
              (record {
                is_long_header = true;
                version = version % 256;
                dcid = dcid;
                scid = scid;
                packet_type = first / 16 % 4;
              })
              pos2

unfoldable pub decode_quic : Bytes → ℕ → Outcome Quic
decode_quic data' offset = if leb (length data') offset then err truncated_header offset else do
  first ← at (drop offset data') 0
  if leb 128 first
      then quic_long first data' offset
      else ok
          (record { is_long_header = false; version = 0; dcid = []; scid = []; packet_type = 0 })
          (offset + 1)

pub record Smb : Type 0 where
  pub version : ℕ
  pub command : ℕ
  pub status : ℕ
  pub tid : ℕ
  pub uid : ℕ
  pub mid : ℕ
  pub flags : ℕ
  pub flags2 : ℕ

unfoldable pub smb2 : Bytes → ℕ → Outcome Smb
smb2 data' offset = if ltb (length data') (offset + 64) then err truncated_header offset else do
  command ← at (drop offset data') 12
  status ← be32 (drop offset data') 8
  flags ← at (drop offset data') 16
  uid ← be16 (drop offset data') 40
  tid ← be16 (drop offset data') 36
  mid ← be16 (drop offset data') 28
  ok
      (record {
        version = 2;
        command = command;
        status = status;
        tid = tid;
        uid = uid;
        mid = mid;
        flags = flags;
        flags2 = 0;
      })
      (offset + 64)

unfoldable pub smb1 : Bytes → ℕ → Outcome Smb
smb1 data' offset = if ltb (length data') (offset + 32) then err truncated_header offset else do
  command ← at (drop offset data') 4
  status ← be32 (drop offset data') 5
  flags ← at (drop offset data') 9
  flags2 ← be16 (drop offset data') 10
  tid ← be16 (drop offset data') 24
  uid ← be16 (drop offset data') 28
  mid ← be16 (drop offset data') 30
  ok
      (record {
        version = 1;
        command = command;
        status = status;
        tid = tid;
        uid = uid;
        mid = mid;
        flags = flags;
        flags2 = flags2;
      })
      (offset + 32)

-- The magic is `FE` or `FF` and `SMB`.
unfoldable pub decode_smb : Bytes → ℕ → Outcome Smb
decode_smb data' offset =
    if ltb (length data') (offset + 4) then err truncated_header offset else do
      magic ← be32 (drop offset data') 0
      if magic == 4266872130
          then smb2 data' offset
          else if magic == 4283649346
          then smb1 data' offset
          else err malformed_packet offset

pub record SrvLoc : Type 0 where
  pub version : ℕ
  pub function_id : ℕ
  pub message_length : ℕ
  pub xid : ℕ
  pub language_tag : Bytes

unfoldable pub srvloc1 : Bytes → ℕ → Outcome SrvLoc
srvloc1 data' offset = if ltb (length data') (offset + 12) then err truncated_header offset else do
  function_id ← at (drop offset data') 1
  message_length ← be16 (drop offset data') 2
  xid ← be16 (drop offset data') 10
  ok
      (record {
        version = 1;
        function_id = function_id;
        message_length = message_length;
        xid = xid;
        language_tag = [];
      })
      (offset + 12)

-- A language tag that the data does not hold is left out.
unfoldable pub with_language : SrvLoc → ℕ → Bytes → ℕ → Outcome SrvLoc
with_language hdr lang_len data' offset =
    if ltb 0 lang_len && leb (offset + lang_len) (length data')
    then (do
      tag ← copy data' offset lang_len
      ok (record hdr { language_tag = tag }) (offset + lang_len))
    else ok hdr offset

unfoldable pub srvloc2 : Bytes → ℕ → Outcome SrvLoc
srvloc2 data' offset = if ltb (length data') (offset + 14) then err truncated_header offset else do
  function_id ← at (drop offset data') 1
  message_length ← be16 (drop offset data') 3
  xid ← be16 (drop offset data') 10
  lang_len ← be16 (drop offset data') 12
  with_language
      (record {
        version = 2;
        function_id = function_id;
        message_length = message_length;
        xid = xid;
        language_tag = [];
      })
      lang_len data' (offset + 14)

unfoldable pub decode_srvloc : Bytes → ℕ → Outcome SrvLoc
decode_srvloc data' offset =
    if ltb (length data') (offset + 5) then err truncated_header offset else do
      version ← at (drop offset data') 0
      if version == 1
          then srvloc1 data' offset
          else if version == 2
          then srvloc2 data' offset
          else err malformed_packet offset
