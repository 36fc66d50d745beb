-- ===== src/Address/RoundTrip.antt =====
-- Addresses of src/address.cpp are read as they are written.
use fdpi.Base.{
  ◌*◌, ℕ, zero, suc, ◌+◌, ◌<◌, ◌≡◌, refl, ◌∙◌, some, [], ◌∷◌, length, ◌==◌, arith, if_true,
}
use fdpi.Wire.{Bytes}
use fdpi.Text.{decimal, hex_pair, from_chars, split_at}
use fdpi.Text.Numbers.{from_chars-decimal, from_chars-hex_pair, split_at-decimal}
use fdpi.Address.Text.{octets, parse_ipv4, print_ipv4, pairs, mac_bytes, parse_mac, print_mac}

-- Bytes of the machine.
abbrev pub AreBytes : Bytes → Type 0
AreBytes [] = Unit
AreBytes (b ∷ bs) = (b < 256) × AreBytes bs

octets_step :
    (n v : ℕ) (s first rest os : Bytes)
    → split_at 46 s ≡ some (first, rest)
    → from_chars 10 256 first ≡ some v
    → octets n rest ≡ some os
    → octets (suc n) s ≡ some (v ∷ os)
unfolding octets
octets_step n v s first rest os e f g = rw (e, octets) (rw (f, octets) (rw (g, octets) refl))

octets-print_ipv4 :
    (n a : ℕ) (bs : Bytes)
    → length bs ≡ n
    → AreBytes (a ∷ bs)
    → octets n (print_ipv4 (a ∷ bs)) ≡ some (a ∷ bs)
unfolding octets print_ipv4
octets-print_ipv4 zero a [] n h = rw (from_chars-decimal a h.0, octets) refl
octets-print_ipv4 zero a (b ∷ bs) n h = absurd (omega arith)
octets-print_ipv4 (suc k) a [] n h = absurd (omega arith)
octets-print_ipv4 (suc k) a (b ∷ bs) n h =
    octets_step k a _ (decimal a) (print_ipv4 (b ∷ bs)) (b ∷ bs)
      (split_at-decimal a (print_ipv4 (b ∷ bs))) (from_chars-decimal a h.0)
      (octets-print_ipv4 k b bs (omega arith) h.1)

-- Every IPv4 address is read back from its text as it was.
pub parse_ipv4-print_ipv4 :
    (bytes : Bytes) → length bytes ≡ 4 → AreBytes bytes → parse_ipv4 (print_ipv4 bytes) ≡ some bytes
unfolding parse_ipv4
parse_ipv4-print_ipv4 [] n h = absurd (omega arith)
parse_ipv4-print_ipv4 (a ∷ bs) n h = octets-print_ipv4 3 a bs (omega arith) h

-- The rest of a MAC address behind its first byte.
rest_of : Bytes → Bytes
rest_of [] = []
rest_of (b ∷ bs) = 58 ∷ print_mac (b ∷ bs)

length-rest_of : (bs : Bytes) → length (rest_of bs) ≡ 3 * length bs
unfolding rest_of print_mac hex_pair
length-rest_of [] = omega arith
length-rest_of (b ∷ []) = omega arith
length-rest_of (b ∷ c ∷ bs) = omega (arith, length-rest_of (c ∷ bs))

pairs-rest_of :
    (n : ℕ) (bs : Bytes) → length bs ≡ n → AreBytes bs → pairs n 58 (rest_of bs) ≡ some bs
unfolding pairs rest_of print_mac hex_pair
pairs-rest_of zero [] n h = refl
pairs-rest_of zero (b ∷ bs) n h = absurd (omega arith)
pairs-rest_of (suc k) [] n h = absurd (omega arith)
pairs-rest_of (suc k) (b ∷ []) n h =
    rw (from_chars-hex_pair b h.0, pairs-rest_of k [] (omega arith) tt) refl
pairs-rest_of (suc k) (b ∷ c ∷ bs) n h =
    rw (from_chars-hex_pair b h.0, pairs-rest_of k (c ∷ bs) (omega arith) h.1) refl

mac_bytes_step :
    (a b v : ℕ) (s vs : Bytes)
    → from_chars 16 256 (a ∷ b ∷ []) ≡ some v
    → pairs 5 58 (58 ∷ s) ≡ some vs
    → mac_bytes (a ∷ b ∷ 58 ∷ s) ≡ some (v ∷ vs)
unfolding mac_bytes
mac_bytes_step a b v s vs e f = rw (e, f) refl

mac_bytes-print_mac :
    (a : ℕ) (bs : Bytes)
    → length bs ≡ 5
    → AreBytes (a ∷ bs)
    → mac_bytes (print_mac (a ∷ bs)) ≡ some (a ∷ bs)
unfolding print_mac hex_pair rest_of
mac_bytes-print_mac a [] n h = absurd (omega arith)
mac_bytes-print_mac a (b ∷ bs) n h =
    mac_bytes_step _ _ a _ (b ∷ bs) (from_chars-hex_pair a h.0) (pairs-rest_of 5 (b ∷ bs) n h.1)

length-print_mac : (a : ℕ) (bs : Bytes) → length (print_mac (a ∷ bs)) ≡ 3 * length bs + 2
unfolding print_mac hex_pair
length-print_mac a [] = omega arith
length-print_mac a (b ∷ bs) = omega (arith, length-print_mac b bs)

-- Every MAC address is read back from its text as it was.
pub parse_mac-print_mac :
    (bytes : Bytes) → length bytes ≡ 6 → AreBytes bytes → parse_mac (print_mac bytes) ≡ some bytes
unfolding parse_mac
parse_mac-print_mac [] n h = absurd (omega arith)
parse_mac-print_mac (a ∷ bs) n h =
    if_true (length (print_mac (a ∷ bs)) == 17) _ _ (ground (arith, length-print_mac a bs))
    ∙ mac_bytes-print_mac a bs (omega arith) h
