-- ===== src/Text/Numbers.antt =====
-- Numbers as text and back, for src/address.cpp.
use fdpi.Base.{
  ℕ, ◌+◌, ◌*◌, ◌/◌, ◌%◌, ◌<◌, ◌≡◌, refl, ap, ◌∙◌, false, some, [], ◌∷◌, ◌++◌, ltb, ◌==◌, arith,
  if-elim, if_true, if_false,
}
use fdpi.Wire.{Bytes}
use fdpi.Text.{
  hex_digit, hexadecimal, decimal, digit_value, digits_from, is_empty, from_chars, split_at,
}

pub digit_value-decimal : (d : ℕ) → d < 10 → digit_value 10 (48 + d) ≡ some d
unfolding digit_value
digit_value-decimal d h = ground arith

pub digit_value-hex_digit : (d : ℕ) → d < 16 → digit_value 16 (hex_digit d) ≡ some d
unfolding digit_value hex_digit
digit_value-hex_digit d h = ground arith

-- One, two and three digits in a row.
module _ (base limit : ℕ) where
  from_chars_one :
      (a x : ℕ) → digit_value base a ≡ some x → x < limit → from_chars base limit (a ∷ []) ≡ some x
  unfolding from_chars digits_from is_empty
  from_chars_one a x ea h = rw (ea, digits_from) (ground arith)

  pub from_chars_two :
      (a b x y : ℕ)
      → digit_value base a ≡ some x
      → digit_value base b ≡ some y
      → x * base + y < limit
      → from_chars base limit (a ∷ b ∷ []) ≡ some (x * base + y)
  unfolding from_chars digits_from is_empty
  from_chars_two a b x y ea eb h = rw (ea, eb, digits_from) (ground arith)

  from_chars_three :
      (a b c x y z : ℕ)
      → digit_value base a ≡ some x
      → digit_value base b ≡ some y
      → digit_value base c ≡ some z
      → (x * base + y) * base + z < limit
      → from_chars base limit (a ∷ b ∷ c ∷ []) ≡ some ((x * base + y) * base + z)
  unfolding from_chars digits_from is_empty
  from_chars_three a b c x y z ea eb ec h = rw (ea, eb, ec, digits_from) (ground arith)

  from_chars_four :
      (a b c d x y z w : ℕ)
      → digit_value base a ≡ some x
      → digit_value base b ≡ some y
      → digit_value base c ≡ some z
      → digit_value base d ≡ some w
      → ((x * base + y) * base + z) * base + w < limit
      → from_chars base limit (a ∷ b ∷ c ∷ d ∷ []) ≡ some (((x * base + y) * base + z) * base + w)
  unfolding from_chars digits_from is_empty
  from_chars_four a b c d x y z w ea eb ec ed h = rw (ea, eb, ec, ed, digits_from) (ground arith)

-- A byte is read as it was written.
pub from_chars-decimal : (n : ℕ) → n < 256 → from_chars 10 256 (decimal n) ≡ some n
unfolding decimal
from_chars-decimal n h =
    if-elim (λ s. from_chars 10 256 s ≡ some n) (ltb n 10)
      (λ small. from_chars_one 10 256 (48 + n) n (digit_value-decimal n (ground arith)) h)
      λ _.
        if-elim (λ s. from_chars 10 256 s ≡ some n) (ltb n 100)
          (λ small.
            from_chars_two 10 256 (48 + n / 10) (48 + n % 10) (n / 10) (n % 10)
              (digit_value-decimal (n / 10) (ground arith))
              (digit_value-decimal (n % 10) (omega arith)) (omega arith)
            ∙ ap some (omega arith))
          λ _.
            from_chars_three 10 256 (48 + n / 100) (48 + n / 10 % 10) (48 + n % 10) (n / 100)
              (n / 10 % 10) (n % 10) (digit_value-decimal (n / 100) (omega arith))
              (digit_value-decimal (n / 10 % 10) (omega arith))
              (digit_value-decimal (n % 10) (omega arith)) (omega arith)
            ∙ ap some (omega arith)

pub from_chars-hex_pair :
    (n : ℕ)
    → n < 256
    → from_chars 16 256 (hex_digit (n / 16 % 16) ∷ hex_digit (n % 16) ∷ []) ≡ some n
from_chars-hex_pair n h =
    from_chars_two 16 256 (hex_digit (n / 16 % 16)) (hex_digit (n % 16)) (n / 16 % 16) (n % 16)
      (digit_value-hex_digit (n / 16 % 16) (omega arith))
      (digit_value-hex_digit (n % 16) (omega arith)) (omega arith)
    ∙ ap some (omega arith)

-- A number of 16 bits is read as it was written in hexadecimal.
pub from_chars-hexadecimal : (n : ℕ) → n < 65536 → from_chars 16 65536 (hexadecimal n) ≡ some n
unfolding hexadecimal
from_chars-hexadecimal n h =
    if-elim (λ s. from_chars 16 65536 s ≡ some n) (ltb n 16)
      (λ one. from_chars_one 16 65536 (hex_digit n) n (digit_value-hex_digit n (ground arith)) h)
      λ more.
        if-elim (λ s. from_chars 16 65536 s ≡ some n) (ltb n 256)
          (λ two.
            from_chars_two 16 65536 (hex_digit (n / 16)) (hex_digit (n % 16)) (n / 16) (n % 16)
              (digit_value-hex_digit (n / 16) (ground arith))
              (digit_value-hex_digit (n % 16) (omega arith)) (omega arith)
            ∙ ap some (omega arith))
          λ more2.
            if-elim (λ s. from_chars 16 65536 s ≡ some n) (ltb n 4096)
              (λ three.
                from_chars_three 16 65536 (hex_digit (n / 256)) (hex_digit (n / 16 % 16))
                  (hex_digit (n % 16)) (n / 256) (n / 16 % 16) (n % 16)
                  (digit_value-hex_digit (n / 256) (ground arith))
                  (digit_value-hex_digit (n / 16 % 16) (omega arith))
                  (digit_value-hex_digit (n % 16) (omega arith)) (omega arith)
                ∙ ap some (omega arith))
              λ four.
                from_chars_four 16 65536 (hex_digit (n / 4096)) (hex_digit (n / 256 % 16))
                  (hex_digit (n / 16 % 16)) (hex_digit (n % 16)) (n / 4096) (n / 256 % 16)
                  (n / 16 % 16) (n % 16) (digit_value-hex_digit (n / 4096) (omega arith))
                  (digit_value-hex_digit (n / 256 % 16) (omega arith))
                  (digit_value-hex_digit (n / 16 % 16) (omega arith))
                  (digit_value-hex_digit (n % 16) (omega arith)) (omega arith)
                ∙ ap some (omega arith)

split_at_here : (c : ℕ) (s : Bytes) → split_at c (c ∷ s) ≡ some ([], s)
unfolding split_at
split_at_here c s = if_true (c == c) _ _ (ground arith)

split_at_later :
    (c b : ℕ) (s l r : Bytes)
    → (b == c) ≡ false
    → split_at c s ≡ some (l, r)
    → split_at c (b ∷ s) ≡ some (b ∷ l, r)
unfolding split_at
split_at_later c b s l r other e = if_false (b == c) _ _ other ∙ rw e refl

-- The separator is found behind the digits, none of which is one.
pub split_at-decimal :
    (n : ℕ) (s : Bytes) → split_at 46 (decimal n ++ (46 ∷ s)) ≡ some (decimal n, s)
unfolding decimal
split_at-decimal n s =
    if-elim (λ d. split_at 46 (d ++ (46 ∷ s)) ≡ some (d, s)) (ltb n 10)
      (λ _. split_at_later 46 (48 + n) _ _ _ (ground arith) (split_at_here 46 s))
      λ _.
        if-elim (λ d. split_at 46 (d ++ (46 ∷ s)) ≡ some (d, s)) (ltb n 100)
          (λ _.
            split_at_later 46 (48 + n / 10) _ _ _ (ground arith)
              (split_at_later 46 (48 + n % 10) _ _ _ (ground arith) (split_at_here 46 s)))
          λ _. split_at_later 46 (48 + n / 100) _ _ _ (ground arith) (
            split_at_later 46 (48 + n / 10 % 10) _ _ _ (ground arith)
              (split_at_later 46 (48 + n % 10) _ _ _ (ground arith) (split_at_here 46 s)))
