-- ===== src/Header/Encode.antt =====
-- UDP and TCP headers as bytes on the wire, most significant byte first (RFC 768 and RFC 9293),
-- against the decoders of src/protocol/udp.cpp and src/protocol/tcp.cpp.
pub mod Ipv4
use fdpi.Base.{
  Option, some, take, leb, if_true, take-append_length, Bool-cases, inl, inr, if◌then◌else◌, ◌-◌, ℕ,
  ◌+◌, ◌*◌, ◌/◌, ◌%◌, ◌^◌, ◌≤◌, ◌<◌, ◌≡◌, refl, sym, ap, ◌∙◌, false, List, [], ◌∷◌, ◌++◌, length,
  drop, ltb, arith, if_false, length-append, drop-append_length,
}
use fdpi.Wire.{Bytes, Outcome, ok, be16, be32, at, copy, ◌>>=◌}
use fdpi.Header.Transport.{Tcp, Udp, decode_udp, decode_tcp}

unfoldable pub encode16 : ℕ → Bytes → Bytes
encode16 n rest = n / 256 ∷ n % 256 ∷ rest

unfoldable pub encode_udp : Udp → Bytes → Bytes
encode_udp h rest =
    encode16 h.src_port (encode16 h.dst_port (encode16 h.len (encode16 h.checksum rest)))

pub joined : (n : ℕ) → n / 256 * 256 + n % 256 ≡ n
joined n = omega arith

-- The guard of a decoder passes in front of `n` bytes.
pub guard_passes :
    (pre bytes : Bytes) (n : ℕ)
    → n ≤ length bytes
    → ltb (length (pre ++ bytes)) (length pre + n) ≡ false
guard_passes pre bytes n h = ground (arith, length-append pre bytes)

-- `decodeUdp` at the bytes of a UDP header, behind and in front of any other bytes, gives back the
-- header and moves the offset behind it.
pub decode_udp-encode :
    (pre rest : Bytes) (h : Udp)
    → decode_udp (pre ++ encode_udp h rest) (length pre) ≡ ok h (length pre + 8)
unfolding decode_udp encode_udp encode16 be16 at ◌>>=◌
decode_udp-encode pre rest h =
    if_false _ _ _ (guard_passes pre (encode_udp h rest) 8 (omega arith))
    ∙ rw
        (
          drop-append_length pre (encode_udp h rest),
          joined h.src_port,
          joined h.dst_port,
          joined h.len,
          joined h.checksum,
        )
        refl

unfoldable pub encode32 : ℕ → Bytes → Bytes
encode32 n rest = encode16 (n / 65536) (encode16 (n % 65536) rest)

joined32 : (n : ℕ) → n / 65536 * 65536 + n % 65536 ≡ n
joined32 n = omega arith

-- The twenty fixed bytes.
unfoldable pub fixed_tcp : Tcp → Bytes → Bytes
fixed_tcp h rest = encode16 h.src_port (
    encode16 h.dst_port (
      encode32 h.seq_num (
        encode32 h.ack_num (
          h.data_offset * 16
          ∷ h.flags
          ∷ encode16 h.window (encode16 h.checksum (encode16 h.urgent_pointer rest))))))

unfoldable pub encode_tcp : Tcp → Bytes → Bytes
encode_tcp h rest = fixed_tcp h (h.options ++ rest)

-- A header that can be sent: the data offset counts its words, of which five are fixed.
pub record IsTcp (h : Tcp) : Type 0 where
  pub fixed : 5 ≤ h.data_offset
  pub words : h.data_offset < 16
  pub filled : length h.options + 20 ≡ h.data_offset * 4

data_offset_of : (n : ℕ) → n < 16 → n * 16 / 16 % 16 ≡ n
data_offset_of n h = omega arith

pub copy_middle :
    (a b c : Bytes) (k n : ℕ) → length a ≡ k → length b ≡ n → copy (a ++ (b ++ c)) k n ≡ some b
unfolding copy
copy_middle a b c k n i e =
    if_true (leb (k + n) (length (a ++ (b ++ c)))) _ _
      (ground (arith, length-append a (b ++ c), length-append b c))
    ∙ ap some (
        ap (λ j. take n (drop j (a ++ (b ++ c)))) (sym i)
        ∙ ap (take n) (drop-append_length a (b ++ c))
        ∙ ap (λ j. take j (b ++ c)) (sym e)
        ∙ take-append_length b c)

no_bytes : (b : Bytes) → length b ≡ 0 → b ≡ []
no_bytes [] e = refl
no_bytes (_ ∷ _) e = absurd (omega (arith, e))

-- The options behind twenty bytes, if there are any.
pub options_of :
    (a b c : Bytes) (words : ℕ)
    → length a ≡ 20
    → 5 ≤ words
    → length b + 20 ≡ words * 4
    → (if ltb 5 words then copy (a ++ (b ++ c)) 20 (words * 4 - 20) else some []) ≡ some b
options_of a b c words twenty fixed e = elim (Bool-cases (ltb 5 words)) [
  | inl more ↦
      if_true (ltb 5 words) _ _ more
      ∙ copy_middle a b c 20 (words * 4 - 20) twenty (omega (arith, e))
  | inr none' ↦ if_false (ltb 5 words) _ _ none' ∙ ap some (sym (no_bytes b (ground (arith, e))))
]

-- `decodeTcp` at the bytes of a TCP header whose data offset counts its words, behind and in front
-- of any other bytes, gives back the header with its options and moves the offset behind it.
pub decode_tcp-encode :
    (pre rest : Bytes) (h : Tcp)
    → IsTcp h
    → decode_tcp (pre ++ encode_tcp h rest) (length pre) ≡ ok h (length pre + h.data_offset * 4)
unfolding decode_tcp encode_tcp fixed_tcp encode32 encode16 be32 be16 at ◌>>=◌
decode_tcp-encode pre rest h v =
    if_false _ _ _ (guard_passes pre (encode_tcp h rest) 20 (omega (arith, v.filled)))
    ∙ rw
        (
          drop-append_length pre (encode_tcp h rest),
          joined h.src_port,
          joined h.dst_port,
          joined (h.seq_num / 65536),
          joined (h.seq_num % 65536),
          joined32 h.seq_num,
          joined (h.ack_num / 65536),
          joined (h.ack_num % 65536),
          joined32 h.ack_num,
          joined h.window,
          joined h.checksum,
          joined h.urgent_pointer,
          data_offset_of h.data_offset v.words,
        )
        (if_false (ltb h.data_offset 5) _ _ (ground (arith, v.fixed))
          ∙ if_false _ _ _ (
              guard_passes pre (encode_tcp h rest) (h.data_offset * 4)
                (omega (arith, length-append h.options rest, v.filled)))
          ∙ ap
              (λ m. m >>= λ options.
                ok (record h { options = options }) (length pre + h.data_offset * 4))
              (options_of (fixed_tcp h []) h.options rest h.data_offset refl v.fixed v.filled))
