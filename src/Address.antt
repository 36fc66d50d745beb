-- ===== src/Address.antt =====
-- include/fdpi/address.hpp: an address is the array of its bytes, and `IpAddress` the variant of
-- the two kinds. Arrays are ordered lexicographically, and a variant first by its alternative.
pub mod Text
pub mod Ipv6
pub mod RoundTrip
use Prim.Native.Nat.{compare, Ordering}
use fdpi.Base.{Bool, true, false, ◌&&◌, ◌≡◌, ◌↔◌, refl, [], ◌∷◌, ◌==◌, arith}
use fdpi.Base.Assoc.{Eq}
use fdpi.Wire.{Bytes}

pub data IpAddress : Type 0 where
  v4 : Bytes → IpAddress
  v6 : Bytes → IpAddress

unfoldable pub bytes_eq : Bytes → Bytes → Bool
bytes_eq [] [] = true
bytes_eq [] (_ ∷ _) = false
bytes_eq (_ ∷ _) [] = false
bytes_eq (a ∷ as') (b ∷ bs) = a == b && bytes_eq as' bs

-- `operator==` of `IpAddress`.
unfoldable pub ip_eq : IpAddress → IpAddress → Bool
unfolding bytes_eq
ip_eq (v4 a) (v4 b) = bytes_eq a b
ip_eq (v4 a) (v6 b) = false
ip_eq (v6 a) (v4 b) = false
ip_eq (v6 a) (v6 b) = bytes_eq a b

-- `a > b` on arrays of bytes.
unfoldable pub bytes_gt : Bytes → Bytes → Bool
bytes_gt [] bs = false
bytes_gt (_ ∷ _) [] = true
bytes_gt (a ∷ as') (b ∷ bs) = elim (compare a b) [
  | Ordering.lt ↦ false
  | Ordering.gt ↦ true
  | Ordering.eq ↦ bytes_gt as' bs
]

-- `operator>` of `IpAddress`.
unfoldable pub ip_gt : IpAddress → IpAddress → Bool
unfolding bytes_gt
ip_gt (v4 a) (v4 b) = bytes_gt a b
ip_gt (v4 a) (v6 b) = false
ip_gt (v6 a) (v4 b) = true
ip_gt (v6 a) (v6 b) = bytes_gt a b

pub bytes_eq_iff : (a b : Bytes) → (bytes_eq a b ≡ true) ↔ (a ≡ b)
unfolding bytes_eq
bytes_eq_iff [] [] = (λ _. refl, λ _. refl)
bytes_eq_iff [] (_ ∷ _) = (λ h. cc, λ h. cc)
bytes_eq_iff (_ ∷ _) [] = (λ h. cc, λ h. cc)
bytes_eq_iff (a ∷ as') (b ∷ bs) =
    (λ h. ground (arith, bytes_eq_iff as' bs), λ h. ground (arith, bytes_eq_iff as' bs))

pub ip_eq_iff : (a b : IpAddress) → (ip_eq a b ≡ true) ↔ (a ≡ b)
unfolding ip_eq
ip_eq_iff (v4 a) (v4 b) =
    (λ h. ground (arith, bytes_eq_iff a b), λ h. ground (arith, bytes_eq_iff a b))
ip_eq_iff (v4 a) (v6 b) = (λ h. cc, λ h. cc)
ip_eq_iff (v6 a) (v4 b) = (λ h. cc, λ h. cc)
ip_eq_iff (v6 a) (v6 b) =
    (λ h. ground (arith, bytes_eq_iff a b), λ h. ground (arith, bytes_eq_iff a b))

instance abbrev pub ip_address_eq : Eq IpAddress
ip_address_eq = record { beq = ip_eq; beq_iff = ip_eq_iff }

-- `>` is asymmetric, and of two different addresses one is the greater.
bytes_gt_trichotomy :
    (a b : Bytes)
    → (bytes_gt a b ≡ true → bytes_gt b a ≡ false)
      × (bytes_gt a b ≡ false → bytes_gt b a ≡ false → a ≡ b)
unfolding bytes_gt
bytes_gt_trichotomy [] [] = ground arith
bytes_gt_trichotomy [] (_ ∷ _) = ground arith
bytes_gt_trichotomy (_ ∷ _) [] = ground arith
bytes_gt_trichotomy (a ∷ as') (b ∷ bs) = ground (arith, bytes_gt_trichotomy as' bs)

pub ip_gt_asymm : (a b : IpAddress) → ip_gt a b ≡ true → ip_gt b a ≡ false
unfolding ip_gt
ip_gt_asymm (v4 a) (v4 b) = (bytes_gt_trichotomy a b).0
ip_gt_asymm (v4 a) (v6 b) = λ h. cc
ip_gt_asymm (v6 a) (v4 b) = λ h. refl
ip_gt_asymm (v6 a) (v6 b) = (bytes_gt_trichotomy a b).0

pub ip_gt_total : (a b : IpAddress) → ip_gt a b ≡ false → ip_gt b a ≡ false → a ≡ b
unfolding ip_gt
ip_gt_total (v4 a) (v4 b) = λ p q. ground (arith, bytes_gt_trichotomy a b)
ip_gt_total (v4 a) (v6 b) = λ p q. cc
ip_gt_total (v6 a) (v4 b) = λ p q. cc
ip_gt_total (v6 a) (v6 b) = λ p q. ground (arith, bytes_gt_trichotomy a b)
