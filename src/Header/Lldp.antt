-- ===== src/Header/Lldp.antt =====
-- src/protocol/lldp.cpp.
use fdpi.Base.{
  ◌*◌, ℕ, zero, suc, ◌+◌, ◌/◌, ◌%◌, ◌&&◌, Option, none, some, List, [], ◌∷◌, ◌++◌, length, drop,
  ltb, ◌==◌, if◌then◌else◌,
}
use fdpi.Text.{hex_pair}
use fdpi.Wire.{Bytes, Outcome, ok, err, fault, truncated_header, ◌>>=◌, be16, copy}

pub record LldpTlv : Type 0 where
  pub type : ℕ
  pub value : Bytes

pub record Lldp : Type 0 where
  pub chassis_id : Bytes
  pub port_id : Bytes
  pub ttl : ℕ
  pub system_name : Option Bytes
  pub system_description : Option Bytes
  pub tlvs : List LldpTlv

abbrev pub empty_lldp : Lldp
empty_lldp = record {
  chassis_id = [];
  port_id = [];
  ttl = 0;
  system_name = none;
  system_description = none;
  tlvs = [];
}

-- `formatMac`: six bytes in hexadecimal with colons, any other number of bytes as they are.
unfoldable pub format_mac : Bytes → Bytes
format_mac (a ∷ b ∷ c ∷ d ∷ e ∷ f ∷ []) =
    hex_pair a
      (58 ∷ hex_pair b (58 ∷ hex_pair c (58 ∷ hex_pair d (58 ∷ hex_pair e (58 ∷ hex_pair f [])))))
format_mac bytes = bytes

-- Chassis and port: the subtype, and the id behind it, which is an address for one subtype.
unfoldable pub id_of : ℕ → Bytes → Bytes → Bytes
id_of mac_subtype old [] = old
id_of mac_subtype old (_ ∷ []) = old
id_of mac_subtype old (subtype ∷ b ∷ id) =
    if subtype == mac_subtype && length (b ∷ id) == 6 then format_mac (b ∷ id) else b ∷ id

unfoldable pub ttl_of : ℕ → Bytes → ℕ
ttl_of old (a ∷ b ∷ _) = a * 256 + b
ttl_of old _ = old

-- The `switch` over the type of a TLV.
unfoldable pub note_tlv : Lldp → ℕ → Bytes → Lldp
note_tlv hdr type value =
    let hdr' = record hdr { tlvs = hdr.tlvs ++ record { type = type; value = value } ∷ [] } in
    if type == 1
    then record hdr' { chassis_id = id_of 4 hdr.chassis_id value }
    else if type == 2
    then record hdr' { port_id = id_of 3 hdr.port_id value }
    else if type == 3
    then record hdr' { ttl = ttl_of hdr.ttl value }
    else if type == 5
    then record hdr' { system_name = some value }
    else if type == 6
    then record hdr' { system_description = some value }
    else hdr'

-- The loop over the TLVs. Each round reads at least two bytes.
unfoldable pub lldp_loop : ℕ → Bytes → Lldp → ℕ → Outcome Lldp
lldp_loop zero data' hdr offset = fault
lldp_loop (suc fuel) data' hdr offset =
    let more = λ (hdr' : Lldp) (o : ℕ). lldp_loop fuel data' hdr' o in
    if ltb (length data') (offset + 2) then ok hdr offset else do
      tlv_header ← be16 (drop offset data') 0
      if tlv_header / 512 % 128 == 0
          then ok hdr (offset + 2)
          else if ltb (length data') (offset + 2 + tlv_header % 512)
          then err truncated_header (offset + 2)
          else (do
            value ← copy (drop (offset + 2) data') 0 (tlv_header % 512)
            more (note_tlv hdr (tlv_header / 512 % 128) value) (offset + 2 + tlv_header % 512))

unfoldable pub decode_lldp : Bytes → ℕ → Outcome Lldp
decode_lldp data' offset =
    if ltb (length data') (offset + 2)
    then err truncated_header offset
    else lldp_loop (suc (length data')) data' empty_lldp offset
