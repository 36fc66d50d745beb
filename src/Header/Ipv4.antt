-- ===== src/Header/Ipv4.antt =====
-- src/protocol/ipv4.cpp.
use fdpi.Base.{ℕ, ◌+◌, ◌-◌, ◌*◌, ◌/◌, ◌%◌, not, [], some, length, drop, ltb, ◌==◌, if◌then◌else◌}
use fdpi.Wire.{
  Bytes, Outcome, ok, err, truncated_header, malformed_packet, invalid_header_length, ◌>>=◌, at,
  be16, copy,
}

pub record Ipv4 : Type 0 where
  pub version : ℕ
  pub ihl : ℕ
  pub dscp : ℕ
  pub ecn : ℕ
  pub total_length : ℕ
  pub identification : ℕ
  pub flags : ℕ
  pub fragment_offset : ℕ
  pub ttl : ℕ
  pub protocol : ℕ
  pub checksum : ℕ
  pub src_ip : Bytes
  pub dst_ip : Bytes
  pub options : Bytes

-- The fields after the checks of version and length, at the pointer `p`.
unfoldable pub read_ipv4 : Bytes → ℕ → ℕ → Outcome Ipv4
read_ipv4 p first offset = do
  service ← at p 1
  total_length ← be16 p 2
  identification ← be16 p 4
  flags_frag ← be16 p 6
  ttl ← at p 8
  protocol ← at p 9
  checksum ← be16 p 10
  src_ip ← copy p 12 4
  dst_ip ← copy p 16 4
  options ← if ltb 5 (first % 16) then copy p 20 (first % 16 * 4 - 20) else some []
  ok
      (record {
        version = first / 16 % 16;
        ihl = first % 16;
        dscp = service / 4 % 64;
        ecn = service % 4;
        total_length = total_length;
        identification = identification;
        flags = flags_frag / 8192 % 8;
        fragment_offset = flags_frag % 8192;
        ttl = ttl;
        protocol = protocol;
        checksum = checksum;
        src_ip = src_ip;
        dst_ip = dst_ip;
        options = options;
      })
      (offset + first % 16 * 4)

unfoldable pub decode_ipv4 : Bytes → ℕ → Outcome Ipv4
decode_ipv4 data' offset =
    if ltb (length data') (offset + 20) then err truncated_header offset else do
      first ← at (drop offset data') 0
      if not (first / 16 % 16 == 4)
          then err malformed_packet offset
          else if ltb (first % 16) 5
          then err invalid_header_length offset
          else if ltb (length data') (offset + first % 16 * 4)
          then err truncated_header offset
          else read_ipv4 (drop offset data') first offset
