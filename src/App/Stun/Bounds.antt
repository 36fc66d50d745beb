-- ===== src/App/Stun/Bounds.antt =====
-- The reads and offsets of src/protocol/stun.cpp.
use fdpi.Base.{
  ℕ, zero, suc, ◌+◌, ◌*◌, ◌/◌, ◌≤◌, ◌&&◌, Option, none, some, length, drop, length-drop, leb, ltb,
  ◌==◌, min, arith,
}
use fdpi.Wire.{Bytes}
use fdpi.Wire.Bounded.{
  Bounded, returns, Bounded-if, Bounded-guard, Bounded-and_then, Bounded-at, Bounded-be16,
  Bounded-be32, Bounded-copy,
}
use fdpi.Address.{IpAddress}
use fdpi.App.Stun.{
  Stun, xor_mapped_address, mapped_address_of, stun_attribute, stun_attributes, decode_stun,
}

module _ (data' : Bytes) where
  xor_mapped_address-Bounded :
      (pos n : ℕ) (hdr : Stun)
      → 8 ≤ n
      → pos + n ≤ length data'
      → Bounded pos (length data') (xor_mapped_address data' pos n hdr)
  unfolding xor_mapped_address
  xor_mapped_address-Bounded pos n hdr long fits =
      let room : n ≤ length (drop pos data') = omega (arith, length-drop pos data') in
      Bounded-at _ _ (omega arith) λ family. Bounded-be16 _ _ (omega arith) λ _.
        Bounded-if (family == 1)
          (λ _. Bounded-be32 _ _ (omega arith) λ _. returns (omega arith) (omega arith))
          λ _.
            Bounded-if (family == 2 && leb 20 n)
              (λ v. Bounded-copy _ _ _ (ground arith) λ _. returns (omega arith) (omega arith))
              λ _. returns (omega arith) (omega arith)

  mapped_address_of-Bounded :
      (pos : ℕ) (hdr : Stun) (known : Option IpAddress)
      → pos + 8 ≤ length data'
      → Bounded pos (length data') (mapped_address_of data' pos hdr known)
  unfolding mapped_address_of
  mapped_address_of-Bounded pos hdr (some a) fits = returns (omega arith) (omega arith)
  mapped_address_of-Bounded pos hdr none fits =
      let room : 8 ≤ length (drop pos data') = omega (arith, length-drop pos data') in
      Bounded-at _ _ (omega arith) λ family. Bounded-be16 _ _ (omega arith) λ _.
        Bounded-if (family == 1)
          (λ _. Bounded-copy _ _ _ (omega arith) λ _. returns (omega arith) (omega arith))
          λ _. returns (omega arith) (omega arith)

  stun_attribute-Bounded :
      (type n pos : ℕ) (hdr : Stun)
      → pos + n ≤ length data'
      → Bounded pos (length data') (stun_attribute type n data' pos hdr)
  unfolding stun_attribute
  stun_attribute-Bounded type n pos hdr fits =
      Bounded-if (type == 32 && leb 8 n)
        (λ long. xor_mapped_address-Bounded pos n hdr (ground arith) fits)
        λ _.
          Bounded-if (type == 1 && leb 8 n)
            (λ long. mapped_address_of-Bounded pos hdr hdr.mapped_address (ground arith))
            λ _. returns (omega arith) (omega arith)

  stun_attributes-Bounded :
      (fuel lo offset end : ℕ) (hdr : Stun)
      → lo ≤ offset
      → lo ≤ end
      → end ≤ length data'
      → Bounded lo (length data') (stun_attributes fuel data' offset end hdr)
  unfolding stun_attributes
  stun_attributes-Bounded zero lo offset end hdr h low high = returns low high
  stun_attributes-Bounded (suc fuel) lo offset end hdr h low high =
      Bounded-if (leb (offset + 4) end)
        (λ more.
          let room : 4 ≤ length (drop offset data') = ground (arith, length-drop offset data') in
          Bounded-be16 _ _ (omega arith) λ type. Bounded-be16 _ _ (omega arith) λ n.
            Bounded-if (ltb end (offset + 4 + n)) (λ _. returns low high)
              λ fits.
                Bounded-and_then _ _ (offset + 4) (omega arith)
                  (stun_attribute-Bounded type n (offset + 4) hdr (ground arith))
                  λ hdr' _ _ _.
                    stun_attributes-Bounded fuel lo (offset + 4 + (n + 3) / 4 * 4) end hdr'
                      (omega arith) low high)
        λ _. returns low high

pub decode_stun-Bounded :
    (data' : Bytes) (o : ℕ) → o ≤ length data' → Bounded o (length data') (decode_stun data' o)
unfolding decode_stun
decode_stun-Bounded data' o h = Bounded-guard data' o 20 h λ room fits.
    Bounded-be16 _ _ (omega arith) λ _. Bounded-be16 _ _ (omega arith) λ n.
      Bounded-be32 _ _ (omega arith) λ _. Bounded-copy _ _ _ (omega arith) λ _.
        stun_attributes-Bounded data' (length data') o (o + 20) (min (o + 20 + n) (length data')) _
          (omega arith) (omega arith) (omega arith)
