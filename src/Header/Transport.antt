-- ===== src/Header/Transport.antt =====
-- src/protocol/tcp.cpp and src/protocol/udp.cpp.
use fdpi.Base.{ℕ, ◌+◌, ◌-◌, ◌*◌, ◌/◌, ◌%◌, Bool, [], some, length, drop, ltb, ◌==◌, if◌then◌else◌}
use fdpi.Wire.{
  Bytes, Outcome, ok, err, truncated_header, invalid_header_length, ◌>>=◌, at, be16, be32, copy,
}

pub record Tcp : Type 0 where
  pub src_port : ℕ
  pub dst_port : ℕ
  pub seq_num : ℕ
  pub ack_num : ℕ
  pub data_offset : ℕ
  pub flags : ℕ
  pub window : ℕ
  pub checksum : ℕ
  pub urgent_pointer : ℕ
  pub options : Bytes

-- `flags & 0x01`, `flags & 0x02` and `flags & 0x04`.
unfoldable pub fin : Tcp → Bool
fin t = t.flags % 2 == 1

unfoldable pub syn : Tcp → Bool
syn t = t.flags / 2 % 2 == 1

unfoldable pub rst : Tcp → Bool
rst t = t.flags / 4 % 2 == 1

pub record Udp : Type 0 where
  pub src_port : ℕ
  pub dst_port : ℕ
  pub len : ℕ
  pub checksum : ℕ

unfoldable pub decode_tcp : Bytes → ℕ → Outcome Tcp
decode_tcp data' offset =
    if ltb (length data') (offset + 20) then err truncated_header offset else do
      src_port ← be16 (drop offset data') 0
      dst_port ← be16 (drop offset data') 2
      seq_num ← be32 (drop offset data') 4
      ack_num ← be32 (drop offset data') 8
      first ← at (drop offset data') 12
      flags ← at (drop offset data') 13
      window ← be16 (drop offset data') 14
      checksum ← be16 (drop offset data') 16
      urgent_pointer ← be16 (drop offset data') 18
      if ltb (first / 16 % 16) 5
          then err invalid_header_length offset
          else if ltb (length data') (offset + first / 16 % 16 * 4)
          then err truncated_header offset
          else do
            options ←
                if ltb 5 (first / 16 % 16)
                then copy (drop offset data') 20 (first / 16 % 16 * 4 - 20)
                else some []
            ok
                (record {
                  src_port = src_port;
                  dst_port = dst_port;
                  seq_num = seq_num;
                  ack_num = ack_num;
                  data_offset = first / 16 % 16;
                  flags = flags;
                  window = window;
                  checksum = checksum;
                  urgent_pointer = urgent_pointer;
                  options = options;
                })
                (offset + first / 16 % 16 * 4)

unfoldable pub decode_udp : Bytes → ℕ → Outcome Udp
decode_udp data' offset =
    if ltb (length data') (offset + 8) then err truncated_header offset else do
      src_port ← be16 (drop offset data') 0
      dst_port ← be16 (drop offset data') 2
      len ← be16 (drop offset data') 4
      checksum ← be16 (drop offset data') 6
      ok (record { src_port = src_port; dst_port = dst_port; len = len; checksum = checksum })
          (offset + 8)
