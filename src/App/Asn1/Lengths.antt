-- ===== src/App/Asn1/Lengths.antt =====
-- The lengths of X.690 as `readAsn1Length` of src/protocol/asn1.cpp reads them.
use fdpi.Base.{
  if-elim, ◌≤◌, ℕ, suc, ◌+◌, ◌*◌, ◌/◌, ◌%◌, ◌^◌, ◌<◌, ◌≡◌, refl, ap, ◌∙◌, ◌||◌, true, false, [],
  ◌∷◌, ◌++◌, length, drop, length-drop, length-append, ltb, ◌==◌, if◌then◌else◌, arith,
}
use fdpi.Wire.{Bytes, ok, ◌>>=◌}
use fdpi.Wire.Reads.{at-drop, drop-next, before_end}
use fdpi.App.Asn1.{shift_in, long_length, read_asn1_length}

-- The shortest of X.690's two forms: a byte below 128, or the number of bytes and the bytes.
unfoldable pub encode_length : ℕ → Bytes
encode_length n =
    if ltb n 128
    then n ∷ []
    else if ltb n 256
    then 129 ∷ n ∷ []
    else if ltb n 65536
    then 130 ∷ n / 256 ∷ n % 256 ∷ []
    else if ltb n 16777216
    then 131 ∷ n / 65536 ∷ n / 256 % 256 ∷ n % 256 ∷ []
    else 132 ∷ n / 16777216 ∷ n / 65536 % 256 ∷ n / 256 % 256 ∷ n % 256 ∷ []

-- The number that the bytes shift in.
big_endian : ℕ → Bytes → ℕ
big_endian v [] = v
big_endian v (b ∷ bs) = big_endian (v * 256 % 2 ^ 64 + b) bs

shift_in-bytes :
    (data' rest : Bytes) (v pos : ℕ) (bs : Bytes)
    → drop pos data' ≡ bs ++ rest
    → shift_in data' v pos (length bs) ≡ ok (big_endian v bs) (pos + length bs)
unfolding shift_in ◌>>=◌ big_endian
shift_in-bytes data' rest v pos [] h = ap (ok v) (omega arith)
shift_in-bytes data' rest v pos (b ∷ bs) h =
    let next : pos + 1 ≡ suc pos = omega arith in
    let end : pos + suc (length bs) ≡ suc pos + length bs = omega arith in
    rw (at-drop data' pos h, next, end)
      (shift_in-bytes data' rest (v * 256 % 2 ^ 64 + b) (suc pos) bs (drop-next data' pos h))

-- The long form with its one to four bytes.
long_form :
    (data' rest : Bytes) (pos n : ℕ) (bs : Bytes)
    → 1 ≤ n
    → n ≤ 4
    → length bs ≡ n
    → drop pos data' ≡ (128 + n) ∷ bs ++ rest
    → read_asn1_length data' pos ≡ ok (big_endian 0 bs) (pos + 1 + n)
unfolding read_asn1_length long_length ◌>>=◌
long_form data' rest pos n bs low high len h =
    let inside : ltb (length data') (pos + 1 + n) ≡ false =
      ground (arith, length-drop pos data', ap length h, length-append bs rest) in
    let small : ltb (128 + n) 128 ≡ false = ground arith in
    let count : (128 + n) % 128 ≡ n = omega arith in
    let allowed : (n == 0 || ltb 4 n) ≡ false = ground arith in
    let next : pos + 1 ≡ suc pos = omega arith in
    rw
      (
        before_end data' (bs ++ rest) pos (128 + n) h,
        at-drop data' pos h,
        small,
        count,
        allowed,
        inside,
        next,
      )
      (rw⁻¹ len (shift_in-bytes data' rest 0 (suc pos) bs (drop-next data' pos h)))

module _ (data' rest : Bytes) (pos n : ℕ) where
  short_form : n < 128 → drop pos data' ≡ n ∷ rest → read_asn1_length data' pos ≡ ok n (pos + 1)
  unfolding read_asn1_length ◌>>=◌
  short_form small h =
      let test : ltb n 128 ≡ true = ground arith in
      rw (before_end data' rest pos n h, at-drop data' pos h, test) refl

  one_byte : n < 256 → big_endian 0 (n ∷ []) ≡ n
  unfolding big_endian
  one_byte h = omega arith

  two_bytes : n < 65536 → big_endian 0 (n / 256 ∷ n % 256 ∷ []) ≡ n
  unfolding big_endian
  two_bytes h = omega arith

  three_bytes : n < 16777216 → big_endian 0 (n / 65536 ∷ n / 256 % 256 ∷ n % 256 ∷ []) ≡ n
  unfolding big_endian
  three_bytes h = omega arith

  four_bytes :
      n < 4294967296
      → big_endian 0 (n / 16777216 ∷ n / 65536 % 256 ∷ n / 256 % 256 ∷ n % 256 ∷ []) ≡ n
  unfolding big_endian
  four_bytes h = omega arith

  abbrev IsRead : Bytes → Type 0
  IsRead code =
      drop pos data' ≡ code ++ rest → read_asn1_length data' pos ≡ ok n (pos + length code)

  one_of_four :
      (k : ℕ) (bs : Bytes)
      → 1 ≤ k
      → k ≤ 4
      → length bs ≡ k
      → big_endian 0 bs ≡ n
      → IsRead ((128 + k) ∷ bs)
  one_of_four k bs low high len value h =
      long_form data' rest pos k bs low high len h ∙ rw value (ap (ok n) (omega arith))

  -- `readAsn1Length` reads back every length below 2 ^ 32 from its X.690 encoding, wherever that
  -- stands in the data, and leaves the position behind it.
  pub read_asn1_length-encode_length :
      n < 4294967296
      → drop pos data' ≡ encode_length n ++ rest
      → read_asn1_length data' pos ≡ ok n (pos + length (encode_length n))
  unfolding encode_length
  read_asn1_length-encode_length fits =
      if-elim IsRead (ltb n 128) (λ b h. short_form (ground arith) h)
        λ _.
          if-elim IsRead (ltb n 256)
            (λ b. one_of_four 1 _ (omega arith) (omega arith) refl (one_byte (ground arith)))
            λ _.
              if-elim IsRead (ltb n 65536)
                (λ b. one_of_four 2 _ (omega arith) (omega arith) refl (two_bytes (ground arith)))
                λ _.
                  if-elim IsRead (ltb n 16777216)
                    (λ b.
                      one_of_four 3 _ (omega arith) (omega arith) refl (three_bytes (ground arith)))
                    λ _. one_of_four 4 _ (omega arith) (omega arith) refl (four_bytes fits)
