-- ===== src/Header/Other.antt =====
-- src/protocol/igmp.cpp, esp.cpp, homeplug.cpp and eapol.cpp.
use fdpi.Base.{ℕ, ◌+◌, ◌-◌, min, [], length, drop, ltb, if◌then◌else◌}
use fdpi.Wire.{Bytes, Outcome, ok, err, truncated_header, ◌>>=◌, at, be16, be32, le16, copy}

pub record Igmp : Type 0 where
  pub type : ℕ
  pub max_resp_time : ℕ
  pub checksum : ℕ
  pub group_address : Bytes

unfoldable pub decode_igmp : Bytes → ℕ → Outcome Igmp
decode_igmp data' offset =
    if ltb (length data') (offset + 8) then err truncated_header offset else do
      type ← at (drop offset data') 0
      max_resp_time ← at (drop offset data') 1
      checksum ← be16 (drop offset data') 2
      group_address ← copy (drop offset data') 4 4
      ok
          (record {
            type = type;
            max_resp_time = max_resp_time;
            checksum = checksum;
            group_address = group_address;
          })
          (offset + 8)

pub record Esp : Type 0 where
  pub spi : ℕ
  pub sequence_number : ℕ

unfoldable pub decode_esp : Bytes → ℕ → Outcome Esp
decode_esp data' offset =
    if ltb (length data') (offset + 8) then err truncated_header offset else do
      spi ← be32 (drop offset data') 0
      sequence_number ← be32 (drop offset data') 4
      ok (record { spi = spi; sequence_number = sequence_number }) (offset + 8)

pub record HomePlug : Type 0 where
  pub version : ℕ
  pub type : ℕ

unfoldable pub decode_homeplug : Bytes → ℕ → Outcome HomePlug
decode_homeplug data' offset =
    if ltb (length data') (offset + 5) then err truncated_header offset else do
      version ← at (drop offset data') 0
      type ← le16 (drop offset data') 1
      ok (record { version = version; type = type }) (offset + 5)

pub record Eapol : Type 0 where
  pub version : ℕ
  pub type : ℕ
  pub body_length : ℕ
  pub body : Bytes

-- The body is cut off at the end of the buffer.
unfoldable pub decode_eapol : Bytes → ℕ → Outcome Eapol
decode_eapol data' offset =
    if ltb (length data') (offset + 4) then err truncated_header offset else do
      version ← at (drop offset data') 0
      type ← at (drop offset data') 1
      body_length ← be16 (drop offset data') 2
      let body_bytes = min body_length (length data' - (offset + 4))
      if ltb 0 body_bytes
          then (do
            body ← copy (drop (offset + 4) data') 0 body_bytes
            ok (record { version = version; type = type; body_length = body_length; body = body })
                (offset + 4 + body_bytes))
          else ok (record { version = version; type = type; body_length = body_length; body = [] })
              (offset + 4)
