-- ===== src/Header/Encode/Ipv4.antt =====
-- An IPv4 header as bytes on the wire (RFC 791), against the decoder of src/protocol/ipv4.cpp.
use fdpi.Base.{
  ℕ, ◌+◌, ◌-◌, ◌*◌, ◌/◌, ◌%◌, ◌≤◌, ◌<◌, ◌≡◌, refl, sym, ap, ◌∙◌, not, ◌==◌, some, [], ◌∷◌, ◌++◌,
  length, ltb, arith, if_false, if◌then◌else◌, length-append, drop-append_length, append_assoc,
}
use fdpi.Wire.{
  Bytes, ok, err, truncated_header, malformed_packet, invalid_header_length, be16, at, copy, ◌>>=◌,
}
use fdpi.Header.Ipv4.{Ipv4, read_ipv4, decode_ipv4}
use fdpi.Header.Encode.{encode16, joined, guard_passes, copy_middle, options_of}

-- The twelve bytes in front of the addresses.
unfoldable pub fixed_ipv4 : Ipv4 → Bytes → Bytes
fixed_ipv4 h rest =
    (h.version * 16 + h.ihl)
    ∷ (h.dscp * 4 + h.ecn)
    ∷ encode16 h.total_length (
        encode16 h.identification (
          encode16 (h.flags * 8192 + h.fragment_offset)
            (h.ttl ∷ h.protocol ∷ encode16 h.checksum rest)))

unfoldable pub encode_ipv4 : Ipv4 → Bytes → Bytes
encode_ipv4 h rest = fixed_ipv4 h (h.src_ip ++ (h.dst_ip ++ (h.options ++ rest)))

-- A header that can be sent: each bit field fits, and the header length counts its words.
pub record IsIpv4 (h : Ipv4) : Type 0 where
  pub four : h.version ≡ 4
  pub fixed : 5 ≤ h.ihl
  pub words : h.ihl < 16
  pub filled : length h.options + 20 ≡ h.ihl * 4
  pub service : h.dscp < 64
  pub congestion : h.ecn < 4
  pub three_bits : h.flags < 8
  pub offset : h.fragment_offset < 8192
  pub source : length h.src_ip ≡ 4
  pub destination : length h.dst_ip ≡ 4

module _ (h : Ipv4) (rest : Bytes) (v : IsIpv4 h) where
  read_src : copy (encode_ipv4 h rest) 12 4 ≡ some h.src_ip
  unfolding encode_ipv4 fixed_ipv4 encode16
  read_src =
      copy_middle (fixed_ipv4 h []) h.src_ip (h.dst_ip ++ (h.options ++ rest)) 12 4 refl v.source

  read_dst : copy (encode_ipv4 h rest) 16 4 ≡ some h.dst_ip
  unfolding encode_ipv4 fixed_ipv4 encode16
  read_dst =
      ap (λ p. copy p 16 4)
        (append_assoc (fixed_ipv4 h []) h.src_ip (h.dst_ip ++ (h.options ++ rest)))
      ∙ copy_middle (fixed_ipv4 h [] ++ h.src_ip) h.dst_ip (h.options ++ rest) 16 4
          (omega (arith, v.source, length-append (fixed_ipv4 h []) h.src_ip)) v.destination

  read_options :
      (if ltb 5 h.ihl then copy (encode_ipv4 h rest) 20 (h.ihl * 4 - 20) else some [])
      ≡ some h.options
  unfolding encode_ipv4 fixed_ipv4 encode16
  read_options =
      let front : Bytes = fixed_ipv4 h [] ++ h.src_ip in
      ap (λ p. if ltb 5 h.ihl then copy p 20 (h.ihl * 4 - 20) else some [])
        (sym (append_assoc (fixed_ipv4 h []) h.src_ip (h.dst_ip ++ (h.options ++ rest)))
          ∙ sym (append_assoc front h.dst_ip (h.options ++ rest)))
      ∙ options_of (front ++ h.dst_ip) h.options rest h.ihl
          (omega (
            arith,
            v.source,
            v.destination,
            length-append (fixed_ipv4 h [] ++ h.src_ip) h.dst_ip,
            length-append (fixed_ipv4 h []) h.src_ip,
          ))
          v.fixed v.filled

  room : h.ihl * 4 ≤ length (encode_ipv4 h rest)
  unfolding encode_ipv4 fixed_ipv4 encode16
  room = omega (
    arith,
    v.filled,
    v.source,
    v.destination,
    length-append h.src_ip (h.dst_ip ++ (h.options ++ rest)),
    length-append h.dst_ip (h.options ++ rest),
    length-append h.options rest,
  )

nibbles :
    (h : Ipv4)
    → IsIpv4 h
    → ((h.version * 16 + h.ihl) / 16 % 16 ≡ h.version) × ((h.version * 16 + h.ihl) % 16 ≡ h.ihl)
nibbles h v = (omega (arith, v.four, v.words), omega (arith, v.words))

service_bits :
    (h : Ipv4)
    → IsIpv4 h
    → ((h.dscp * 4 + h.ecn) / 4 % 64 ≡ h.dscp) × ((h.dscp * 4 + h.ecn) % 4 ≡ h.ecn)
service_bits h v = (omega (arith, v.service, v.congestion), omega (arith, v.congestion))

fragment_bits :
    (h : Ipv4)
    → IsIpv4 h
    → ((h.flags * 8192 + h.fragment_offset) / 8192 % 8 ≡ h.flags)
      × ((h.flags * 8192 + h.fragment_offset) % 8192 ≡ h.fragment_offset)
fragment_bits h v = (omega (arith, v.three_bits, v.offset), omega (arith, v.offset))

read_ipv4-encode :
    (rest : Bytes) (h : Ipv4) (o : ℕ)
    → IsIpv4 h
    → read_ipv4 (encode_ipv4 h rest) (h.version * 16 + h.ihl) o ≡ ok h (o + h.ihl * 4)
unfolding read_ipv4 encode_ipv4 fixed_ipv4 encode16 be16 at ◌>>=◌
read_ipv4-encode rest h o v =
    rw
      (
        (nibbles h v).0,
        (nibbles h v).1,
        (service_bits h v).0,
        (service_bits h v).1,
        joined h.total_length,
        joined h.identification,
        joined (h.flags * 8192 + h.fragment_offset),
        (fragment_bits h v).0,
        (fragment_bits h v).1,
        joined h.checksum,
      )
      (ap
          (λ m. m >>= λ src. copy (encode_ipv4 h rest) 16 4 >>= λ dst.
            (if ltb 5 h.ihl then copy (encode_ipv4 h rest) 20 (h.ihl * 4 - 20) else some [])
            >>= λ options.
                ok (record h { src_ip = src; dst_ip = dst; options = options }) (o + h.ihl * 4))
          (read_src h rest v)
        ∙ ap
            (λ m. m >>= λ dst.
              (if ltb 5 h.ihl then copy (encode_ipv4 h rest) 20 (h.ihl * 4 - 20) else some [])
              >>= λ options. ok (record h { dst_ip = dst; options = options }) (o + h.ihl * 4))
            (read_dst h rest v)
        ∙ ap (λ m. m >>= λ options. ok (record h { options = options }) (o + h.ihl * 4))
            (read_options h rest v))

-- `decodeIPv4` at the bytes of an IPv4 header whose fields fit and whose header length counts its
-- words, behind and in front of any other bytes, gives back the header with its options and moves
-- the offset behind it.
pub decode_ipv4-encode :
    (pre rest : Bytes) (h : Ipv4)
    → IsIpv4 h
    → decode_ipv4 (pre ++ encode_ipv4 h rest) (length pre) ≡ ok h (length pre + h.ihl * 4)
unfolding decode_ipv4 at ◌>>=◌ encode_ipv4 fixed_ipv4
decode_ipv4-encode pre rest h v =
    if_false _ _ _
      (guard_passes pre (encode_ipv4 h rest) 20 (omega (arith, room h rest v, v.fixed)))
    ∙ ap
        (λ p. at p 0 >>= λ first.
          if not (first / 16 % 16 == 4)
          then err malformed_packet (length pre)
          else if ltb (first % 16) 5
          then err invalid_header_length (length pre)
          else if ltb (length (pre ++ encode_ipv4 h rest)) (length pre + first % 16 * 4)
          then err truncated_header (length pre)
          else read_ipv4 p first (length pre))
        (drop-append_length pre (encode_ipv4 h rest))
    ∙ passes
  where
    first : ℕ
    first = h.version * 16 + h.ihl

    passes :
        (if not (first / 16 % 16 == 4)
          then err malformed_packet (length pre)
          else if ltb (first % 16) 5
          then err invalid_header_length (length pre)
          else if ltb (length (pre ++ encode_ipv4 h rest)) (length pre + first % 16 * 4)
          then err truncated_header (length pre)
          else read_ipv4 (encode_ipv4 h rest) first (length pre))
        ≡ ok h (length pre + h.ihl * 4)
    passes =
        if_false (not (first / 16 % 16 == 4)) _ _ (ground (arith, nibbles h v, v.four))
        ∙ if_false (ltb (first % 16) 5) _ _ (ground (arith, nibbles h v, v.fixed))
        ∙ if_false (ltb (length (pre ++ encode_ipv4 h rest)) (length pre + first % 16 * 4)) _ _ (
            guard_passes pre (encode_ipv4 h rest) (first % 16 * 4)
              (omega (arith, nibbles h v, room h rest v)))
        ∙ read_ipv4-encode rest h (length pre) v
