-- ===== src/App/Asn1.antt =====
-- src/protocol/asn1.cpp, and the decoders of src/protocol/snmp.cpp and src/protocol/ldap.cpp that stand on it.
-- A `size_t` and an `int64_t` are numbers below 2 ^ 64; a negative integer is its two's complement.
-- A function that takes `pos` by reference returns it with its result.
pub mod Bounds
pub mod Lengths
use fdpi.Base.{
  ℕ, zero, suc, ◌+◌, ◌-◌, ◌*◌, ◌%◌, ◌^◌, Option, none, some, ◌||◌, length, leb, ltb, ◌==◌,
  if◌then◌else◌,
}
use fdpi.Wire.{
  Error, Bytes, Outcome, ok, err, fault, truncated_header, malformed_packet, ◌>>=◌, and_then, at,
  copy,
}

-- `data[pos++]`, behind the guard on the end of the data.
unfoldable pub read_asn1_tag : Bytes → ℕ → Outcome ℕ
read_asn1_tag data' pos =
    if leb (length data') pos then err truncated_header pos else do b ← at data' pos; ok b (pos + 1)

-- The loops `value = (value << 8) | data[pos++]` over `n` bytes.
unfoldable pub shift_in : Bytes → ℕ → ℕ → ℕ → Outcome ℕ
shift_in data' value pos zero = ok value pos
shift_in data' value pos (suc n) = do
  b ← at data' pos
  shift_in data' (value * 256 % 2 ^ 64 + b) (pos + 1) n

-- The long form, whose first byte has its top bit set.
unfoldable pub long_length : Bytes → ℕ → ℕ → Outcome ℕ
long_length data' pos num_bytes =
    if num_bytes == 0 || ltb 4 num_bytes
    then err malformed_packet pos
    else if ltb (length data') (pos + num_bytes)
    then err truncated_header pos
    else shift_in data' 0 pos num_bytes

unfoldable pub read_asn1_length : Bytes → ℕ → Outcome ℕ
read_asn1_length data' pos = if leb (length data') pos then err truncated_header pos else do
  first ← at data' pos
  if ltb first 128 then ok first (pos + 1) else long_length data' (pos + 1) (first % 128)

-- A length whose value lies inside the data.
unfoldable pub length_inside : Bytes → ℕ → Outcome ℕ
length_inside data' pos =
    and_then (read_asn1_length data' pos)
      λ len pos'. if ltb (length data') (pos' + len) then err truncated_header pos' else ok len pos'

-- The sign bit of the first byte fills the number.
unfoldable pub sign_of : ℕ → ℕ
sign_of first = if ltb first 128 then 0 else 2 ^ 64 - 1

unfoldable pub read_asn1_integer : Bytes → ℕ → Outcome ℕ
read_asn1_integer data' pos = and_then (read_asn1_tag data' pos) λ tag pos1.
    if tag == 2
    then and_then (read_asn1_length data' pos1) (λ len pos2.
      if ltb (length data') (pos2 + len) || len == 0
      then err truncated_header pos2
      else do first ← at data' pos2; shift_in data' (sign_of first) pos2 len)
    else err malformed_packet pos1

unfoldable pub read_asn1_octet_string : Bytes → ℕ → Outcome Bytes
read_asn1_octet_string data' pos = and_then (read_asn1_tag data' pos) λ tag pos1.
    if tag == 4
    then and_then (length_inside data' pos1)
        (λ len pos2. do s ← copy data' pos2 len; ok s (pos2 + len))
    else err malformed_packet pos1

unfoldable pub skip_asn1_value : Bytes → ℕ → Outcome ℕ
skip_asn1_value data' pos =
    and_then (read_asn1_tag data' pos)
      λ _ pos1. and_then (length_inside data' pos1) λ len pos2. ok len (pos2 + len)

-- A decoder that works on a copy of the offset: an error leaves the offset where it was, and a result
-- moves it to the end that comes with it.
unfoldable pub on_copy : {A : Type 0} → ℕ → Outcome (A × ℕ) → Outcome A
on_copy offset (ok (a, end) _) = ok a end
on_copy offset (err e _) = err e offset
on_copy offset fault = fault

-- The outer SEQUENCE: its end, and the position of its contents.
unfoldable pub sequence_end : Bytes → ℕ → Outcome ℕ
sequence_end data' offset = and_then (read_asn1_tag data' offset) λ tag pos.
    if tag == 48
    then and_then (length_inside data' pos) (λ len pos'. ok (pos' + len) pos')
    else err malformed_packet pos

pub record SnmpPdu : Type 0 where
  pub community : Bytes
  pub pdu_type : ℕ
  pub request_id : ℕ

pub record Snmp : Type 0 where
  pub version : ℕ
  pub pdu : Option SnmpPdu

unfoldable pub snmp_pdu : Bytes → ℕ → Outcome SnmpPdu
snmp_pdu data' pos = and_then (read_asn1_octet_string data' pos) λ community pos1.
    and_then (read_asn1_tag data' pos1) λ tag pos2.
      if ltb tag 160 || ltb 168 tag
      then err malformed_packet pos2
      else and_then (length_inside data' pos2) λ _ pos3.
        and_then (read_asn1_integer data' pos3) λ request_id pos4.
          ok (record { community = community; pdu_type = tag; request_id = request_id % 2 ^ 32 })
            pos4

-- SNMPv3 stops at its version.
unfoldable pub snmp_of : Bytes → ℕ → ℕ → Outcome Snmp
snmp_of data' version pos =
    if leb version 1
    then and_then (snmp_pdu data' pos)
        (λ pdu pos'. ok (record { version = version; pdu = some pdu }) pos')
    else ok (record { version = version; pdu = none }) pos

unfoldable pub decode_snmp : Bytes → ℕ → Outcome Snmp
decode_snmp data' offset = on_copy offset (
    and_then (sequence_end data' offset) λ end pos.
      and_then (read_asn1_integer data' pos) λ version pos1.
        and_then (snmp_of data' (version % 256) pos1) λ snmp pos2. ok (snmp, end) pos2)

pub record LdapBind : Type 0 where
  pub ldap_version : ℕ
  pub bind_dn : Bytes

pub record Ldap : Type 0 where
  pub message_id : ℕ
  pub operation : ℕ
  pub bind : Option LdapBind

-- A BindRequest has a version and a name.
unfoldable pub ldap_bind : Bytes → ℕ → ℕ → Outcome (Option LdapBind)
ldap_bind data' operation pos =
    if operation == 96
    then and_then (read_asn1_integer data' pos) (λ version pos1.
      and_then (read_asn1_octet_string data' pos1)
        λ dn pos2. ok (some (record { ldap_version = version % 256; bind_dn = dn })) pos2)
    else ok none pos

unfoldable pub decode_ldap : Bytes → ℕ → Outcome Ldap
decode_ldap data' offset = on_copy offset (
    and_then (sequence_end data' offset) λ end pos.
      and_then (read_asn1_integer data' pos) λ message_id pos1.
        and_then (read_asn1_tag data' pos1) λ operation pos2.
          and_then (length_inside data' pos2) λ _ pos3.
            and_then (ldap_bind data' operation pos3) λ bind pos4.
              ok
                (
                  record { message_id = message_id % 2 ^ 32; operation = operation; bind = bind },
                  end,
                )
                pos4)
