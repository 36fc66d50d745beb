-- ===== src/App/Asn1/Bounds.antt =====
-- The reads and offsets of src/protocol/asn1.cpp, snmp.cpp and ldap.cpp.
use fdpi.Base.{ℕ, zero, suc, ◌+◌, ◌*◌, ◌%◌, ◌^◌, ◌≤◌, ◌||◌, length, leb, ltb, ◌==◌, arith}
use fdpi.Wire.{Bytes, Outcome}
use fdpi.Wire.Bounded.{
  Bounded, returns, fails, Bounded-if, Bounded-weaken, Bounded-and_then, Bounded-at, Bounded-copy,
}
use fdpi.Wire.Ensures.{
  Ensures, gives, breaks, Ensures-if, Ensures-and_then, Ensures-call, Bounded-after,
}
use fdpi.App.Asn1.{
  read_asn1_tag, shift_in, long_length, read_asn1_length, length_inside, sign_of, read_asn1_integer,
  read_asn1_octet_string, skip_asn1_value, on_copy, sequence_end, snmp_pdu, snmp_of, decode_snmp,
  ldap_bind, decode_ldap,
}

module _ (data' : Bytes) where
  read_asn1_tag-Bounded :
      (o : ℕ) → o ≤ length data' → Bounded o (length data') (read_asn1_tag data' o)
  unfolding read_asn1_tag
  read_asn1_tag-Bounded o h =
      Bounded-if (leb (length data') o) (λ _. fails (omega arith) h)
        λ more. Bounded-at data' o (ground arith) λ _. returns (omega arith) (ground arith)

  pub shift_in-Bounded :
      (value o n : ℕ) → o + n ≤ length data' → Bounded o (length data') (shift_in data' value o n)
  unfolding shift_in
  shift_in-Bounded value o zero h = returns (omega arith) (omega arith)
  shift_in-Bounded value o (suc n) h = Bounded-at data' o (omega arith) λ b.
      Bounded-weaken (omega arith)
        (shift_in-Bounded (value * 256 % 2 ^ 64 + b) (o + 1) n (omega arith))

  long_length-Bounded :
      (o n : ℕ) → o ≤ length data' → Bounded o (length data') (long_length data' o n)
  unfolding long_length
  long_length-Bounded o n h =
      Bounded-if (n == 0 || ltb 4 n) (λ _. fails (omega arith) h)
        λ _.
          Bounded-if (ltb (length data') (o + n)) (λ _. fails (omega arith) h)
            λ fits. shift_in-Bounded 0 o n (ground arith)

  read_asn1_length-Bounded :
      (o : ℕ) → o ≤ length data' → Bounded o (length data') (read_asn1_length data' o)
  unfolding read_asn1_length
  read_asn1_length-Bounded o h =
      Bounded-if (leb (length data') o) (λ _. fails (omega arith) h)
        λ more. Bounded-at data' o (ground arith) λ first.
          Bounded-if (ltb first 128) (λ _. returns (omega arith) (ground arith))
            λ _.
              Bounded-weaken (omega arith)
                (long_length-Bounded (o + 1) (first % 128) (ground arith))

  -- A length and what it measures lie inside the data.
  length_inside-Ensures :
      (o : ℕ)
      → o ≤ length data'
      → Ensures (λ n o'. o' + n ≤ length data') o (length data') (length_inside data' o)
  unfolding length_inside
  length_inside-Ensures o h =
      Ensures-call _ _ o (omega arith) (read_asn1_length-Bounded o h) λ n o' l u.
        Ensures-if (ltb (length data') (o' + n)) (λ _. breaks l u) λ fits. gives l u (ground arith)

  read_asn1_integer-Bounded :
      (o : ℕ) → o ≤ length data' → Bounded o (length data') (read_asn1_integer data' o)
  unfolding read_asn1_integer
  read_asn1_integer-Bounded o h =
      Bounded-and_then _ _ o (omega arith) (read_asn1_tag-Bounded o h) λ tag o1 l1 u1.
        Bounded-if (tag == 2)
          (λ _. Bounded-and_then _ _ o1 l1 (read_asn1_length-Bounded o1 u1) λ len o2 l2 u2.
            Bounded-if (ltb (length data') (o2 + len) || len == 0) (λ _. fails (omega arith) u2)
              λ fits. Bounded-at data' o2 (ground arith) λ first.
                Bounded-weaken (omega arith)
                  (shift_in-Bounded (sign_of first) o2 len (ground arith)))
          λ _. fails l1 u1

  read_asn1_octet_string-Bounded :
      (o : ℕ) → o ≤ length data' → Bounded o (length data') (read_asn1_octet_string data' o)
  unfolding read_asn1_octet_string
  read_asn1_octet_string-Bounded o h =
      Bounded-and_then _ _ o (omega arith) (read_asn1_tag-Bounded o h) λ tag o1 l1 u1.
        Bounded-if (tag == 4)
          (λ _.
            Bounded-after _ _ o1 l1 (length_inside-Ensures o1 u1)
              λ len o2 l2 u2 fits. Bounded-copy _ _ _ fits λ _. returns (omega arith) fits)
          λ _. fails l1 u1

  skip_asn1_value-Bounded :
      (o : ℕ) → o ≤ length data' → Bounded o (length data') (skip_asn1_value data' o)
  unfolding skip_asn1_value
  skip_asn1_value-Bounded o h =
      Bounded-and_then _ _ o (omega arith) (read_asn1_tag-Bounded o h) λ _ o1 l1 u1.
        Bounded-after _ _ o1 l1 (length_inside-Ensures o1 u1)
          λ len o2 l2 u2 fits. returns (omega arith) fits

  -- The contents of a SEQUENCE lie before its end, and its end inside the data.
  sequence_end-Ensures :
      (o : ℕ)
      → o ≤ length data'
      → Ensures
          (λ end o'. (o' ≤ end) × (end ≤ length data'))
          o
          (length data')
          (sequence_end data' o)
  unfolding sequence_end
  sequence_end-Ensures o h =
      Ensures-call _ _ o (omega arith) (read_asn1_tag-Bounded o h) λ tag o1 l1 u1.
        Ensures-if (tag == 48)
          (λ _.
            Ensures-and_then _ _ o1 l1 (length_inside-Ensures o1 u1)
              λ len o2 l2 u2 fits. gives (omega arith) u2 (omega arith, fits))
          λ _. breaks l1 u1

  snmp_pdu-Bounded : (o : ℕ) → o ≤ length data' → Bounded o (length data') (snmp_pdu data' o)
  unfolding snmp_pdu
  snmp_pdu-Bounded o h =
      Bounded-and_then _ _ o (omega arith) (read_asn1_octet_string-Bounded o h) λ _ o1 l1 u1.
        Bounded-and_then _ _ o1 l1 (read_asn1_tag-Bounded o1 u1) λ tag o2 l2 u2.
          Bounded-if (ltb tag 160 || ltb 168 tag) (λ _. fails (omega arith) u2)
            λ _. Bounded-after _ _ o2 (omega arith) (length_inside-Ensures o2 u2) λ _ o3 l3 u3 _.
              Bounded-and_then _ _ o3 (omega arith) (read_asn1_integer-Bounded o3 u3)
                λ _ o4 l4 u4. returns (omega arith) u4

  snmp_of-Bounded :
      (version o : ℕ) → o ≤ length data' → Bounded o (length data') (snmp_of data' version o)
  unfolding snmp_of
  snmp_of-Bounded version o h =
      Bounded-if (leb version 1)
        (λ _.
          Bounded-and_then _ _ o (omega arith) (snmp_pdu-Bounded o h) λ _ o1 l1 u1. returns l1 u1)
        λ _. returns (omega arith) h

  ldap_bind-Bounded :
      (operation o : ℕ) → o ≤ length data' → Bounded o (length data') (ldap_bind data' operation o)
  unfolding ldap_bind
  ldap_bind-Bounded operation o h =
      Bounded-if (operation == 96)
        (λ _. Bounded-and_then _ _ o (omega arith) (read_asn1_integer-Bounded o h) λ _ o1 l1 u1.
          Bounded-and_then _ _ o1 l1 (read_asn1_octet_string-Bounded o1 u1)
            λ _ o2 l2 u2. returns (omega arith) u2)
        λ _. returns (omega arith) h

on_copy-Bounded :
    {A : Type 0} {o hi : ℕ} {m : Outcome (A × ℕ)}
    → o ≤ hi
    → Ensures (λ r _. (o ≤ r.1) × (r.1 ≤ hi)) o hi m
    → Bounded o hi (on_copy o m)
unfolding on_copy
on_copy-Bounded h (gives _ _ q) = returns (q.0) (q.1)
on_copy-Bounded h (breaks _ _) = fails (omega arith) h

pub decode_snmp-Bounded :
    (data' : Bytes) (o : ℕ) → o ≤ length data' → Bounded o (length data') (decode_snmp data' o)
unfolding decode_snmp
decode_snmp-Bounded data' o h = on_copy-Bounded h (
    Ensures-and_then _ _ o (omega arith) (sequence_end-Ensures data' o h) λ end o1 l1 u1 inside.
      Ensures-call _ _ o1 l1 (read_asn1_integer-Bounded data' o1 u1) λ version o2 l2 u2.
        Ensures-call _ _ o2 (omega arith) (snmp_of-Bounded data' (version % 256) o2 u2)
          λ _ o3 l3 u3. gives (omega arith) u3 (omega (arith, inside.0), inside.1))

pub decode_ldap-Bounded :
    (data' : Bytes) (o : ℕ) → o ≤ length data' → Bounded o (length data') (decode_ldap data' o)
unfolding decode_ldap
decode_ldap-Bounded data' o h = on_copy-Bounded h (
    Ensures-and_then _ _ o (omega arith) (sequence_end-Ensures data' o h) λ end o1 l1 u1 inside.
      Ensures-call _ _ o1 l1 (read_asn1_integer-Bounded data' o1 u1) λ _ o2 l2 u2.
        Ensures-call _ _ o2 (omega arith) (read_asn1_tag-Bounded data' o2 u2) λ operation o3 l3 u3.
          Ensures-and_then _ _ o3 (omega arith) (length_inside-Ensures data' o3 u3) λ _ o4 l4 u4 _.
            Ensures-call _ _ o4 (omega arith) (ldap_bind-Bounded data' operation o4 u4)
              λ _ o5 l5 u5. gives (omega arith) u5 (omega (arith, inside.0), inside.1))
