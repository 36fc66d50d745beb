-- ===== src/Header/Icmp.antt =====
-- src/protocol/icmp.cpp: ICMP and ICMPv6 with the packet that an error message quotes.
use fdpi.Base.{
  ℕ, ◌+◌, ◌-◌, ◌*◌, ◌/◌, ◌%◌, Bool, ◌&&◌, ◌||◌, Option, none, some, length, drop, ltb, leb, ◌==◌,
  if◌then◌else◌,
}
use fdpi.Wire.{Bytes, Outcome, ok, err, truncated_header, ◌>>=◌, at, be16, be32, copy}

-- `IcmpEmbeddedInfo` and `Icmpv6EmbeddedInfo`, which differ in the length of the addresses.
pub record EmbeddedInfo : Type 0 where
  pub protocol : ℕ
  pub src_ip : Bytes
  pub dst_ip : Bytes
  pub src_port : ℕ
  pub dst_port : ℕ
  pub udp_length : ℕ
  pub udp_checksum : ℕ

-- `ICMP` and `ICMPv6`.
pub record Icmp : Type 0 where
  pub type : ℕ
  pub code : ℕ
  pub checksum : ℕ
  pub rest_of_header : ℕ
  pub embedded : Option EmbeddedInfo

unfoldable pub is_icmp_error_type : ℕ → Bool
is_icmp_error_type type = type == 3 || type == 4 || type == 5 || type == 11 || type == 12

unfoldable pub is_icmpv6_error_type : ℕ → Bool
is_icmpv6_error_type type = type == 1 || type == 2 || type == 3 || type == 4

-- The quoted transport header and the rest of the result; the offset is past the ICMP header.
unfoldable pub with_transport : Icmp → ℕ → Bytes → Bytes → Bytes → ℕ → Outcome Icmp
with_transport hdr protocol src_ip dst_ip transport offset = do
  src_port ← be16 transport 0
  dst_port ← be16 transport 2
  udp_length ← if protocol == 17 then be16 transport 4 else some 0
  udp_checksum ← if protocol == 17 then be16 transport 6 else some 0
  ok
      (record hdr {
        embedded = some (record {
          protocol = protocol;
          src_ip = src_ip;
          dst_ip = dst_ip;
          src_port = src_port;
          dst_port = dst_port;
          udp_length = udp_length;
          udp_checksum = udp_checksum;
        });
      })
      offset

-- The embedded IPv4 packet at `emb`, of which `remaining` bytes are there.
unfoldable pub embedded_ipv4 : Icmp → Bytes → ℕ → ℕ → Outcome Icmp
embedded_ipv4 hdr emb remaining offset =
    if leb 20 remaining
    then (do
      first ← at emb 0
      if first / 16 % 16 == 4 && leb 5 (first % 16) && leb (first % 16 * 4 + 8) remaining
          then (do
            protocol ← at emb 9
            src_ip ← copy emb 12 4
            dst_ip ← copy emb 16 4
            with_transport hdr protocol src_ip dst_ip (drop (first % 16 * 4) emb) offset)
          else ok hdr offset)
    else ok hdr offset

unfoldable pub embedded_ipv6 : Icmp → Bytes → ℕ → ℕ → Outcome Icmp
embedded_ipv6 hdr emb remaining offset =
    if leb 48 remaining
    then (do
      first ← at emb 0
      if first / 16 % 16 == 6
          then (do
            next_header ← at emb 6
            src_ip ← copy emb 8 16
            dst_ip ← copy emb 24 16
            with_transport hdr next_header src_ip dst_ip (drop 40 emb) offset)
          else ok hdr offset)
    else ok hdr offset

-- The eight bytes that both begin with; the rest is `more`, from the offset behind them.
unfoldable pub icmp_header : Bytes → ℕ → (Icmp → ℕ → Outcome Icmp) → Outcome Icmp
icmp_header data' offset more =
    if ltb (length data') (offset + 8) then err truncated_header offset else do
      type ← at (drop offset data') 0
      code ← at (drop offset data') 1
      checksum ← be16 (drop offset data') 2
      rest_of_header ← be32 (drop offset data') 4
      more
          (record {
            type = type;
            code = code;
            checksum = checksum;
            rest_of_header = rest_of_header;
            embedded = none;
          })
          (offset + 8)

unfoldable pub decode_icmp : Bytes → ℕ → Outcome Icmp
decode_icmp data' offset = icmp_header data' offset λ hdr o.
    if is_icmp_error_type hdr.type
    then embedded_ipv4 hdr (drop o data') (length data' - o) o
    else ok hdr o

unfoldable pub decode_icmpv6 : Bytes → ℕ → Outcome Icmp
decode_icmpv6 data' offset = icmp_header data' offset λ hdr o.
    if is_icmpv6_error_type hdr.type
    then embedded_ipv6 hdr (drop o data') (length data' - o) o
    else ok hdr o
