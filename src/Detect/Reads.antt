-- ===== src/Detect/Reads.antt =====
-- The reads of the tests of src/detection.cpp.
use fdpi.Base.{
  ℕ, zero, suc, ◌+◌, ◌≤◌, ◌≡◌, refl, Bool, true, false, Option, none, some, [], ◌∷◌, ◌++◌, length,
  arith,
}
use fdpi.Wire.{Bytes, at, be16, be32}
use fdpi.Wire.Bounded.{Readable, at-Readable, be16-Readable, be32-Readable}
use fdpi.Flow.{AppProtocol}
use fdpi.Detect.Rules.{
  first_match, name_rules, multiplexed_rules, secure_rules, text_rules, binary_rules, service_rules,
  management_rules, portless_rules, detect_single,
}
use fdpi.Detect.Payload.{Layer4, Test, when, reading, both, marker, is_smb, Rules}

pub when-Readable :
    (guard : Bool) (t : Test) → (guard ≡ true → Readable t) → Readable (when guard t)
unfolding when
when-Readable true t h = h refl
when-Readable false t h = (false, refl)

pub reading-Readable : (m : Option ℕ) (f : ℕ → Bool) → Readable m → Readable (reading m f)
unfolding reading
reading-Readable none f (a, e) = cc
reading-Readable (some b) f r = (f b, refl)

pub both-Readable : (s t : Test) → Readable s → Readable t → Readable (both s t)
unfolding both
both-Readable none t (a, e) h = cc
both-Readable (some false) t g h = (false, refl)
both-Readable (some true) t g h = h

marker-Readable : (n : ℕ) (p : Bytes) (i : ℕ) → i + n ≤ length p → Readable (marker n p i)
unfolding marker
marker-Readable zero p i h = (true, refl)
marker-Readable (suc n) p i h =
    both-Readable _ _ (reading-Readable _ _ (at-Readable p i (omega arith)))
      (marker-Readable n p (i + 1) (omega arith))

is_smb-Readable : (p : Bytes) (i : ℕ) → i + 4 ≤ length p → Readable (is_smb p i)
unfolding is_smb
is_smb-Readable p i h = both-Readable _ _ (reading-Readable _ _ (at-Readable p i (omega arith))) (
    both-Readable _ _ (reading-Readable _ _ (at-Readable p (i + 1) (omega arith)))
      (reading-Readable _ _ (be16-Readable p (i + 2) (omega arith))))

abbrev AllReadable : Rules → Type 0
AllReadable [] = Unit
AllReadable ((test, _) ∷ rules) = Readable test × AllReadable rules

AllReadable-append : (r s : Rules) → AllReadable r → AllReadable s → AllReadable (r ++ s)
AllReadable-append [] s a b = b
AllReadable-append ((_, _) ∷ r) s (h, a) b = (h, AllReadable-append r s a b)

first_match-Readable : (rules : Rules) → AllReadable rules → Readable (first_match rules)
unfolding first_match
first_match-Readable [] a = (AppProtocol.unknown, refl)
first_match-Readable ((some true, protocol) ∷ rules) (r, a) = (protocol, refl)
first_match-Readable ((some false, protocol) ∷ rules) (r, a) = first_match-Readable rules a
first_match-Readable ((none, protocol) ∷ rules) ((b, e), a) = cc

pure : (b : Bool) → Readable (some b)
pure b = (b, refl)

module _ (p : Bytes) (i : ℕ) (f : ℕ → Bool) where
  byte : suc i ≤ length p → Readable (reading (at p i) f)
  byte h = reading-Readable _ f (at-Readable p i (omega arith))

  word : i + 2 ≤ length p → Readable (reading (be16 p i) f)
  word h = reading-Readable _ f (be16-Readable p i h)

  long : i + 4 ≤ length p → Readable (reading (be32 p i) f)
  long h = reading-Readable _ f (be32-Readable p i h)

module _ (l : Layer4) (p : Bytes) where
  name-AllReadable : AllReadable (name_rules l p)
  unfolding name_rules
  name-AllReadable = (pure _, (pure _, (pure _, (pure _, tt))))

  multiplexed-AllReadable : AllReadable (multiplexed_rules l p)
  unfolding multiplexed_rules
  multiplexed-AllReadable = (
    when-Readable _ _
        (λ g. both-Readable _ _ (byte p 0 _ (ground arith)) (long p 4 _ (ground arith))),
    (
      when-Readable _ _
          (λ g. both-Readable _ _ (byte p 0 _ (ground arith)) (word p 1 _ (ground arith))),
      (
        when-Readable _ _
            (λ g. both-Readable _ _ (byte p 0 _ (ground arith)) (byte p 1 _ (ground arith))),
        tt,
      ),
    ),
  )

  secure-AllReadable : AllReadable (secure_rules l p)
  unfolding secure_rules
  secure-AllReadable = (
    when-Readable _ _ (λ g. byte p 0 _ (ground arith)),
    (
      when-Readable _ _ (λ g. byte p 0 _ (ground arith)),
      (
        when-Readable _ _ (λ g. both-Readable _ _ (byte p 0 _ (ground arith)) (
            both-Readable _ _ (byte p 1 _ (ground arith))
              (both-Readable _ _ (byte p 2 _ (ground arith)) (byte p 3 _ (ground arith))))),
        (pure _, tt),
      ),
    ),
  )

  text-AllReadable : AllReadable (text_rules l p)
  unfolding text_rules
  text-AllReadable = (pure _, (pure _, (pure _, (pure _, (pure _, tt)))))

  binary-AllReadable : AllReadable (binary_rules l p)
  unfolding binary_rules
  binary-AllReadable = (
    when-Readable _ _ (λ g. marker-Readable 16 p 0 (ground arith)),
    (
      when-Readable _ _ (λ g. word p 0 _ (ground arith)),
      (
        when-Readable _ _ (λ g. byte p 0 _ (ground arith)),
        (pure _, (when-Readable _ _ (λ g. byte p 0 _ (ground arith)), tt)),
      ),
    ),
  )

  service-AllReadable : AllReadable (service_rules l p)
  unfolding service_rules
  service-AllReadable = (
    pure _,
    (
      pure _,
      (
        when-Readable _ _ (λ g. is_smb-Readable p 0 (ground arith)),
        (
          when-Readable _ _ (λ g. is_smb-Readable p 4 (ground arith)),
          (pure _, (when-Readable _ _ (λ g. byte p 0 _ (ground arith)), tt)),
        ),
      ),
    ),
  )

  management-AllReadable : AllReadable (management_rules l p)
  unfolding management_rules
  management-AllReadable = (
    when-Readable _ _ (λ g. byte p 0 _ (ground arith)),
    (
      when-Readable _ _ (λ g. long p 236 _ (ground arith)),
      (
        when-Readable _ _ (λ g. byte p 0 _ (ground arith)),
        (
          when-Readable _ _ (λ g. word p 0 _ (ground arith)),
          (when-Readable _ _ (λ g. byte p 0 _ (ground arith)), tt),
        ),
      ),
    ),
  )

  portless-AllReadable : AllReadable (portless_rules l p)
  unfolding portless_rules
  portless-AllReadable = (
    when-Readable _ _
        (λ g. both-Readable _ _ (byte p 0 _ (ground arith)) (word p 1 _ (ground arith))),
    (
      pure _,
      (
        when-Readable _ _
            (λ g. both-Readable _ _ (byte p 0 _ (ground arith)) (long p 1 _ (ground arith))),
        (
          pure _,
          (
            when-Readable _ _ (λ g.
                both-Readable _ _ (marker-Readable 16 p 0 (ground arith))
                  (byte p 18 _ (ground arith))),
            tt,
          ),
        ),
      ),
    ),
  )

  -- For every transport header and every payload, the tests of `detectSingle` read no byte outside
  -- the payload: it returns a protocol.
  pub detect_single-Readable : Readable (detect_single l p)
  unfolding detect_single
  detect_single-Readable = first_match-Readable _ (
      AllReadable-append _ _
        (AllReadable-append _ _
          (AllReadable-append _ _
            (AllReadable-append _ _
              (AllReadable-append _ _
                (AllReadable-append _ _
                  (AllReadable-append _ _ name-AllReadable multiplexed-AllReadable)
                  secure-AllReadable)
                text-AllReadable)
              binary-AllReadable)
            service-AllReadable)
          management-AllReadable)
        portless-AllReadable)
