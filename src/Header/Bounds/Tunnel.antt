-- ===== src/Header/Bounds/Tunnel.antt =====
-- The decoders of the tunnel headers and of ICMP: optional fields, a stack of labels, a quoted
-- packet.
use fdpi.Base.{
  ℕ, zero, suc, ◌+◌, ◌*◌, ◌/◌, ◌%◌, ◌≤◌, ◌<◌, Bool, true, false, ◌&&◌, refl, List, [], ◌∷◌, ◌++◌,
  ◌||◌, length, drop, length-drop, leb, some, Option, ◌==◌, if◌then◌else◌, arith,
}
use fdpi.Wire.{Bytes, Outcome, be16, be32}
use fdpi.Wire.Bounded.{
  Bounded, returns, fails, Readable, room, be16-Readable, be32-Readable, Bounded-if, Bounded-guard,
  Bounded-read, Bounded-weaken, Bounded-and_then, Bounded-at, Bounded-be16, Bounded-be32,
  Bounded-copy,
}
use fdpi.Header.Tunnel.{
  MplsLabel, gre_field, mpls_label, decode_gre, decode_gtp, mpls_loop, decode_mpls,
}
use fdpi.Header.Icmp.{
  Icmp, is_icmp_error_type, is_icmpv6_error_type, with_transport, embedded_ipv4, embedded_ipv6,
  icmp_header, decode_icmp, decode_icmpv6,
}

gre_field-Bounded :
    (present : Bool) (field : Bytes → ℕ → Option ℕ)
    → ((p : Bytes) → 4 ≤ length p → Readable (field p 0))
    → (data' : Bytes) (offset pos : ℕ) → offset ≤ pos
    → pos ≤ length data'
    → Bounded offset (length data') (gre_field present field data' offset pos)
unfolding gre_field
gre_field-Bounded present field readable data' offset pos h fits =
    Bounded-if present
      (λ _.
        Bounded-if _ (λ _. fails (omega arith) (omega arith))
          λ e.
            Bounded-read _ _ (readable (drop pos data') (room data' pos 4 e))
              λ _. returns (omega arith) (ground arith))
      λ _. returns h fits

mpls_loop-Bounded :
    (fuel : ℕ) (data' : Bytes) (stack : List MplsLabel) (o : ℕ)
    → o ≤ length data'
    → length data' < fuel + o
    → Bounded o (length data') (mpls_loop fuel data' stack o)
unfolding mpls_loop
mpls_loop-Bounded zero data' stack o h enough = absurd (omega arith)
mpls_loop-Bounded (suc fuel) data' stack o h enough = Bounded-guard data' o 4 h λ r fits.
    Bounded-be32 _ _ (omega arith) λ raw.
      Bounded-if (raw / 256 % 2 == 1) (λ _. returns (omega arith) fits)
        λ _.
          Bounded-weaken (omega arith)
            (mpls_loop-Bounded fuel data' (stack ++ mpls_label raw ∷ []) (o + 4) fits (omega arith))

-- The label loop ends within the rounds that the buffer's length allows: from an offset inside the
-- buffer, `decodeMpls` reads no byte outside it, and leaves the offset between its old value and
-- the end of the buffer, on success and on an error.
pub decode_mpls-Bounded :
    (data' : Bytes) (o : ℕ) → o ≤ length data' → Bounded o (length data') (decode_mpls data' o)
unfolding decode_mpls
decode_mpls-Bounded data' o h = mpls_loop-Bounded (suc (length data')) data' _ o h (omega arith)

-- From an offset inside the buffer, `decodeGtp` reads no byte outside it, and leaves the
-- offset between its old value and the end of the buffer, on success and on an error.
pub decode_gtp-Bounded :
    (data' : Bytes) (o : ℕ) → o ≤ length data' → Bounded o (length data') (decode_gtp data' o)
unfolding decode_gtp
decode_gtp-Bounded data' o h = Bounded-guard data' o 8 h λ r fits.
    Bounded-at _ _ (omega arith) λ first. Bounded-at _ _ (omega arith) λ _.
      Bounded-be16 _ _ (omega arith) λ _. Bounded-be32 _ _ (omega arith) λ _.
        Bounded-if (first / 4 % 2 == 1 || first / 2 % 2 == 1 || first % 2 == 1)
          (λ _.
            Bounded-weaken (omega arith)
              (Bounded-guard data' (o + 8) 4 fits λ _ fits'. returns (omega arith) fits'))
          λ _. returns (omega arith) fits

with_transport-Bounded :
    (hdr : Icmp) (protocol : ℕ) (src dst transport : Bytes) {lo hi : ℕ} (o : ℕ)
    → 8 ≤ length transport
    → lo ≤ o
    → o ≤ hi
    → Bounded lo hi (with_transport hdr protocol src dst transport o)
unfolding with_transport
with_transport-Bounded hdr protocol src dst transport o room l u =
    Bounded-be16 _ _ (omega arith) λ _. Bounded-be16 _ _ (omega arith) λ _.
      Bounded-read _ _ (port_word 4 (omega arith))
        λ _. Bounded-read _ _ (port_word 6 (omega arith)) λ _. returns l u
  where
    word :
        (b : Bool) (i : ℕ)
        → i + 2 ≤ length transport
        → Readable (if b then be16 transport i else some 0)
    word true i h = be16-Readable transport i h
    word false i h = (0, refl)

    port_word :
        (i : ℕ)
        → i + 2 ≤ length transport
        → Readable (if protocol == 17 then be16 transport i else some 0)
    port_word = word (protocol == 17)

embedded_ipv4-Bounded :
    (hdr : Icmp) (emb : Bytes) {lo hi : ℕ} (o : ℕ)
    → lo ≤ o
    → o ≤ hi
    → Bounded lo hi (embedded_ipv4 hdr emb (length emb) o)
unfolding embedded_ipv4
embedded_ipv4-Bounded hdr emb o l u =
    Bounded-if (leb 20 (length emb))
      (λ e. Bounded-at _ _ (ground arith) λ first.
        Bounded-if
          (first / 16 % 16 == 4 && leb 5 (first % 16) && leb (first % 16 * 4 + 8) (length emb))
          (λ q. Bounded-at emb 9 (ground arith) λ _. Bounded-copy emb 12 4 (ground arith) λ _.
            Bounded-copy emb 16 4 (ground arith) λ _.
              with_transport-Bounded hdr _ _ _ _ o
                (ground (arith, length-drop (first % 16 * 4) emb)) l u)
          λ _. returns l u)
      λ _. returns l u

embedded_ipv6-Bounded :
    (hdr : Icmp) (emb : Bytes) {lo hi : ℕ} (o : ℕ)
    → lo ≤ o
    → o ≤ hi
    → Bounded lo hi (embedded_ipv6 hdr emb (length emb) o)
unfolding embedded_ipv6
embedded_ipv6-Bounded hdr emb o l u =
    Bounded-if (leb 48 (length emb))
      (λ e. Bounded-at _ _ (ground arith) λ first.
        Bounded-if (first / 16 % 16 == 6)
          (λ q. Bounded-at emb 6 (ground arith) λ _. Bounded-copy emb 8 16 (ground arith) λ _.
            Bounded-copy emb 24 16 (ground arith)
              λ _. with_transport-Bounded hdr _ _ _ _ o (ground (arith, length-drop 40 emb)) l u)
          λ _. returns l u)
      λ _. returns l u

icmp_header-Bounded :
    (data' : Bytes) (o : ℕ) (more : Icmp → ℕ → Outcome Icmp)
    → o ≤ length data'
    → ((hdr : Icmp) → o + 8 ≤ length data' → Bounded o (length data') (more hdr (o + 8)))
    → Bounded o (length data') (icmp_header data' o more)
unfolding icmp_header
icmp_header-Bounded data' o more h rest = Bounded-guard data' o 8 h λ r fits.
    Bounded-at _ _ (omega arith) λ _.
      Bounded-at _ _ (omega arith)
        λ _. Bounded-be16 _ _ (omega arith) λ _. Bounded-be32 _ _ (omega arith) λ _. rest _ fits

-- From an offset inside the buffer, `decodeIcmp` reads no byte outside it, and leaves the
-- offset between its old value and the end of the buffer, on success and on an error.
pub decode_icmp-Bounded :
    (data' : Bytes) (o : ℕ) → o ≤ length data' → Bounded o (length data') (decode_icmp data' o)
unfolding decode_icmp
decode_icmp-Bounded data' o h = icmp_header-Bounded data' o _ h λ hdr fits.
    Bounded-if (is_icmp_error_type hdr.type)
      (λ _.
        rw (← length-drop (o + 8) data')
          (embedded_ipv4-Bounded hdr (drop (o + 8) data') (o + 8) (omega arith) fits))
      λ _. returns (omega arith) fits

-- From an offset inside the buffer, `decodeIcmpv6` reads no byte outside it, and leaves the
-- offset between its old value and the end of the buffer, on success and on an error.
pub decode_icmpv6-Bounded :
    (data' : Bytes) (o : ℕ) → o ≤ length data' → Bounded o (length data') (decode_icmpv6 data' o)
unfolding decode_icmpv6
decode_icmpv6-Bounded data' o h = icmp_header-Bounded data' o _ h λ hdr fits.
    Bounded-if (is_icmpv6_error_type hdr.type)
      (λ _.
        rw (← length-drop (o + 8) data')
          (embedded_ipv6-Bounded hdr (drop (o + 8) data') (o + 8) (omega arith) fits))
      λ _. returns (omega arith) fits

-- From an offset inside the buffer, `decodeGre` reads no byte outside it, and leaves the
-- offset between its old value and the end of the buffer, on success and on an error.
pub decode_gre-Bounded :
    (data' : Bytes) (o : ℕ) → o ≤ length data' → Bounded o (length data') (decode_gre data' o)
unfolding decode_gre
decode_gre-Bounded data' o h = Bounded-guard data' o 4 h λ r fits.
    Bounded-be16 _ _ (omega arith) λ flags. Bounded-be16 _ _ (omega arith) λ _.
      Bounded-and_then _ _ o (omega arith)
        (gre_field-Bounded (flags / 32768 % 2 == 1) be16 word16 data' o (o + 4) (omega arith) fits)
        λ _ pos l u.
          Bounded-and_then _ _ o (omega arith)
            (gre_field-Bounded (flags / 8192 % 2 == 1) be32 word32 data' o pos l u)
            λ _ pos' l' u'.
              Bounded-and_then _ _ o (omega arith)
                (gre_field-Bounded (flags / 4096 % 2 == 1) be32 word32 data' o pos' l' u')
                λ _ pos'' l'' u''. returns l'' u''
  where
    word16 : (p : Bytes) → 4 ≤ length p → Readable (be16 p 0)
    word16 p k = be16-Readable p 0 (omega arith)

    word32 : (p : Bytes) → 4 ≤ length p → Readable (be32 p 0)
    word32 p k = be32-Readable p 0 (omega arith)
