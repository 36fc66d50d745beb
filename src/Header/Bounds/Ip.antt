-- ===== src/Header/Bounds/Ip.antt =====
-- The decoders whose headers say how long they are: IPv4, IPv6, TCP and EAPOL.
use fdpi.Base.{
  ℕ, ◌+◌, ◌-◌, ◌*◌, ◌/◌, ◌%◌, ◌≤◌, ◌≡◌, Bool, true, false, refl, min, not, length, drop,
  length-drop, [], some, ltb, ◌==◌, if◌then◌else◌, arith,
}
use fdpi.Wire.{Bytes, copy}
use fdpi.Wire.Bounded.{
  Bounded, returns, fails, Readable, room, copy-Readable, Bounded-if, Bounded-guard, Bounded-read,
  Bounded-at, Bounded-be16, Bounded-be32, Bounded-copy,
}
use fdpi.Header.Ipv4.{read_ipv4, decode_ipv4}
use fdpi.Header.Ipv6.{read_ipv6, decode_ipv6}
use fdpi.Header.Transport.{decode_tcp}
use fdpi.Header.Other.{decode_eapol}

-- The options of IPv4 and TCP: `n` words of header, of which five are fixed.
options-Readable :
    (p : Bytes) (n : ℕ)
    → n * 4 ≤ length p
    → Readable (if ltb 5 n then copy p 20 (n * 4 - 20) else some [])
options-Readable p n h = options_of (ltb 5 n) refl
  where
    options_of : (b : Bool) → ltb 5 n ≡ b → Readable (if b then copy p 20 (n * 4 - 20) else some [])
    options_of true e = copy-Readable p 20 (n * 4 - 20) (ground arith)
    options_of false e = ([], refl)

read_ipv4-Bounded :
    (p : Bytes) (first o hi : ℕ)
    → 20 ≤ length p
    → first % 16 * 4 ≤ length p
    → o + first % 16 * 4 ≤ hi
    → Bounded o hi (read_ipv4 p first o)
unfolding read_ipv4
read_ipv4-Bounded p first o hi room all fits = Bounded-at _ _ (omega arith) λ _.
    Bounded-be16 _ _ (omega arith) λ _. Bounded-be16 _ _ (omega arith) λ _.
      Bounded-be16 _ _ (omega arith) λ _. Bounded-at _ _ (omega arith) λ _.
        Bounded-at _ _ (omega arith) λ _. Bounded-be16 _ _ (omega arith) λ _.
          Bounded-copy _ _ _ (omega arith) λ _. Bounded-copy _ _ _ (omega arith) λ _.
            Bounded-read _ _ (options-Readable p (first % 16) all) λ _. returns (omega arith) fits

-- From an offset inside the buffer, `decodeIPv4` reads no byte outside it, and leaves the
-- offset between its old value and the end of the buffer, on success and on an error.
pub decode_ipv4-Bounded :
    (data' : Bytes) (o : ℕ) → o ≤ length data' → Bounded o (length data') (decode_ipv4 data' o)
unfolding decode_ipv4
decode_ipv4-Bounded data' o h = Bounded-guard data' o 20 h λ r _.
    Bounded-at _ _ (omega arith) λ first.
      Bounded-if (not (first / 16 % 16 == 4)) (λ _. fails (omega arith) h)
        λ _.
          Bounded-if (ltb (first % 16) 5) (λ _. fails (omega arith) h)
            λ _.
              Bounded-guard data' o (first % 16 * 4) h
                λ all fits. read_ipv4-Bounded (drop o data') first o (length data') r all fits

-- From an offset inside the buffer, `decodeIPv6` reads no byte outside it, and leaves the
-- offset between its old value and the end of the buffer, on success and on an error.
pub decode_ipv6-Bounded :
    (data' : Bytes) (o : ℕ) → o ≤ length data' → Bounded o (length data') (decode_ipv6 data' o)
unfolding decode_ipv6 read_ipv6
decode_ipv6-Bounded data' o h = Bounded-guard data' o 40 h λ r fits.
    Bounded-at _ _ (omega arith) λ first.
      Bounded-if (not (first / 16 % 16 == 6)) (λ _. fails (omega arith) h)
        λ _. Bounded-at _ _ (omega arith) λ _. Bounded-be16 _ _ (omega arith) λ _.
          Bounded-be16 _ _ (omega arith) λ _. Bounded-at _ _ (omega arith) λ _.
            Bounded-at _ _ (omega arith) λ _.
              Bounded-copy _ _ _ (omega arith)
                λ _. Bounded-copy _ _ _ (omega arith) λ _. returns (omega arith) fits

-- From an offset inside the buffer, `decodeTcp` reads no byte outside it, and leaves the
-- offset between its old value and the end of the buffer, on success and on an error.
pub decode_tcp-Bounded :
    (data' : Bytes) (o : ℕ) → o ≤ length data' → Bounded o (length data') (decode_tcp data' o)
unfolding decode_tcp
decode_tcp-Bounded data' o h = Bounded-guard data' o 20 h λ r _. Bounded-be16 _ _ (omega arith) λ _.
    Bounded-be16 _ _ (omega arith) λ _. Bounded-be32 _ _ (omega arith) λ _.
      Bounded-be32 _ _ (omega arith) λ _. Bounded-at _ _ (omega arith) λ first.
        Bounded-at _ _ (omega arith) λ _. Bounded-be16 _ _ (omega arith) λ _.
          Bounded-be16 _ _ (omega arith) λ _. Bounded-be16 _ _ (omega arith) λ _.
            Bounded-if (ltb (first / 16 % 16) 5) (λ _. fails (omega arith) h)
              λ _. Bounded-guard data' o (first / 16 % 16 * 4) h λ all fits.
                Bounded-read _ _ (options-Readable (drop o data') (first / 16 % 16) all)
                  λ _. returns (omega arith) fits

-- From an offset inside the buffer, `decodeEapol` reads no byte outside it, and leaves the
-- offset between its old value and the end of the buffer, on success and on an error.
pub decode_eapol-Bounded :
    (data' : Bytes) (o : ℕ) → o ≤ length data' → Bounded o (length data') (decode_eapol data' o)
unfolding decode_eapol
decode_eapol-Bounded data' o h = Bounded-guard data' o 4 h λ r fits.
    Bounded-at _ _ (omega arith) λ _. Bounded-at _ _ (omega arith) λ _.
      Bounded-be16 _ _ (omega arith) λ n.
        Bounded-if (ltb 0 (min n (length data' - (o + 4))))
          (λ _.
            Bounded-copy (drop (o + 4) data') 0 (min n (length data' - (o + 4)))
              (omega (arith, length-drop (o + 4) data')) λ _. returns (omega arith) (omega arith))
          λ _. returns (omega arith) fits
