-- ===== src/Header/Ipv6.antt =====
-- src/protocol/ipv6.cpp.
use fdpi.Base.{ℕ, ◌+◌, ◌*◌, ◌/◌, ◌%◌, not, length, drop, ltb, ◌==◌, if◌then◌else◌}
use fdpi.Wire.{Bytes, Outcome, ok, err, truncated_header, malformed_packet, ◌>>=◌, at, be16, copy}

pub record Ipv6 : Type 0 where
  pub version : ℕ
  pub traffic_class : ℕ
  pub flow_label : ℕ
  pub payload_length : ℕ
  pub next_header : ℕ
  pub hop_limit : ℕ
  pub src_ip : Bytes
  pub dst_ip : Bytes

-- The fields after the check of the version, at the pointer `p`.
unfoldable pub read_ipv6 : Bytes → ℕ → ℕ → Outcome Ipv6
read_ipv6 p first offset = do
  second ← at p 1
  label_low ← be16 p 2
  payload_length ← be16 p 4
  next_header ← at p 6
  hop_limit ← at p 7
  src_ip ← copy p 8 16
  dst_ip ← copy p 24 16
  ok
      (record {
        version = first / 16 % 16;
        traffic_class = first % 16 * 16 + second / 16 % 16;
        flow_label = second % 16 * 65536 + label_low;
        payload_length = payload_length;
        next_header = next_header;
        hop_limit = hop_limit;
        src_ip = src_ip;
        dst_ip = dst_ip;
      })
      (offset + 40)

unfoldable pub decode_ipv6 : Bytes → ℕ → Outcome Ipv6
decode_ipv6 data' offset =
    if ltb (length data') (offset + 40) then err truncated_header offset else do
      first ← at (drop offset data') 0
      if not (first / 16 % 16 == 6)
          then err malformed_packet offset
          else read_ipv6 (drop offset data') first offset
