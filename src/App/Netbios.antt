-- ===== src/App/Netbios.antt =====
-- src/protocol/nbns.cpp and src/protocol/nbdgm.cpp: NetBIOS names, name service messages and datagrams.
-- A function that takes `offset` by reference returns it with its result.
pub mod Bounds
use fdpi.Base.{
  ℕ, zero, suc, ◌+◌, ◌-◌, ◌*◌, ◌/◌, ◌%◌, Bool, true, false, not, ◌&&◌, ◌||◌, List, [], ◌∷◌, ◌++◌,
  length, take, drop, leb, ltb, ◌==◌, if◌then◌else◌,
}
use fdpi.Wire.{Bytes, Outcome, ok, err, truncated_header, ◌>>=◌, and_then, at, be16, be32, copy}

-- Two letters from `A` to `P` are one byte; another pair is passed over.
unfoldable pub netbios_pairs : Bytes → Bytes
netbios_pairs [] = []
netbios_pairs (c1 ∷ []) = []
netbios_pairs (c1 ∷ c2 ∷ s) =
    let rest = netbios_pairs s in
    if leb 65 c1 && leb c1 80 && leb 65 c2 && leb c2 80
    then ((c1 - 65) * 16 + (c2 - 65)) ∷ rest
    else rest

-- The labels of the scope, each behind a dot, on fuel: each takes a byte at least.
unfoldable pub scope_labels : ℕ → Bytes → ℕ → Bytes → Outcome Bytes
scope_labels zero data' offset result = ok result offset
scope_labels (suc fuel) data' offset result =
    if leb (length data') offset then ok result offset else do
      scope_len ← at data' offset
      if scope_len == 0
          then ok result offset
          else if ltb (length data') (offset + 1 + scope_len)
          then ok result (offset + 1)
          else (do
            label ← copy data' (offset + 1) scope_len
            scope_labels fuel data' (offset + 1 + scope_len)
                ((if length result == 0 then [] else result ++ (46 ∷ [])) ++ label))

unfoldable pub skip_null : Bytes → Bytes → ℕ → Outcome Bytes
skip_null result data' offset =
    if leb (length data') offset
    then ok result offset
    else do b ← at data' offset; ok result (if b == 0 then offset + 1 else offset)

unfoldable pub without_trailing : Bytes → Bytes
without_trailing [] = []
without_trailing (c ∷ s) =
    let rest = without_trailing s in if c == 32 && length rest == 0 then [] else c ∷ rest

-- A name of spaces alone stays as it is.
unfoldable pub trimmed : Bytes → Bytes
trimmed s = if length (without_trailing s) == 0 then s else without_trailing s

unfoldable pub decode_netbios_name : Bytes → ℕ → Outcome Bytes
decode_netbios_name data' offset = if leb (length data') offset then ok [] offset else do
  label_len ← at data' offset
  if label_len == 0 || ltb (length data') (offset + 1 + label_len) then ok [] (offset + 1) else (do
    label ← copy data' (offset + 1) label_len
    and_then (scope_labels (length data') data' (offset + 1 + label_len) (netbios_pairs label))
        λ result offset1.
          and_then (skip_null result data' offset1) λ result' offset2. ok (trimmed result') offset2)

-- `decodeName`: a pointer, which counts from the start of the data, or a name.
unfoldable pub decode_nbns_name : Bytes → ℕ → Outcome Bytes
decode_nbns_name data' offset = if leb (length data') offset then ok [] offset else do
  first ← at data' offset
  if leb 192 first
      then (if leb (length data') (offset + 1) then ok [] offset else do
        low ← at data' (offset + 1)
        and_then (decode_netbios_name data' (first % 64 * 256 + low))
            λ name _. ok name (offset + 2))
      else decode_netbios_name data' offset

pub record NbnsQuestion : Type 0 where
  pub name : Bytes
  pub type : ℕ
  pub qclass : ℕ

pub record NbnsRecord : Type 0 where
  pub name : Bytes
  pub type : ℕ
  pub rclass : ℕ
  pub ttl : ℕ
  pub rdata : Bytes

pub record Nbns : Type 0 where
  pub id : ℕ
  pub is_response : Bool
  pub opcode : ℕ
  pub rcode : ℕ
  pub questions : List NbnsQuestion
  pub answers : List NbnsRecord
  pub authorities : List NbnsRecord
  pub additionals : List NbnsRecord

unfoldable pub nbns_questions : ℕ → Bytes → ℕ → List NbnsQuestion → Outcome (List NbnsQuestion)
nbns_questions zero data' offset questions = ok questions offset
nbns_questions (suc count) data' offset questions =
    if leb (length data') offset
    then ok questions offset
    else and_then (decode_nbns_name data' offset) (λ name offset1.
      if ltb (length data') (offset1 + 4) then ok questions offset1 else do
        type ← be16 data' offset1
        qclass ← be16 data' (offset1 + 2)
        nbns_questions count data' (offset1 + 4)
            (questions ++ (record { name = name; type = type; qclass = qclass } ∷ [])))

-- The data of a record are read if the buffer holds them, and else are empty.
unfoldable pub nbns_rdata : Bytes → ℕ → ℕ → Outcome Bytes
nbns_rdata data' offset rd_length =
    if leb (offset + rd_length) (length data')
    then (do rdata ← copy data' offset rd_length; ok rdata (offset + rd_length))
    else ok [] offset

-- `parseRecords`
unfoldable pub nbns_records : ℕ → Bytes → ℕ → List NbnsRecord → Outcome (List NbnsRecord)
nbns_records zero data' offset records = ok records offset
nbns_records (suc count) data' offset records =
    if leb (length data') offset
    then ok records offset
    else and_then (decode_nbns_name data' offset) (λ name offset1.
      if ltb (length data') (offset1 + 10) then ok records offset1 else do
        type ← be16 data' offset1
        rclass ← be16 data' (offset1 + 2)
        ttl ← be32 data' (offset1 + 4)
        rd_length ← be16 data' (offset1 + 8)
        and_then (nbns_rdata data' (offset1 + 10) rd_length) λ rdata offset2.
            nbns_records count data' offset2 (
              records
              ++ (record { name = name; type = type; rclass = rclass; ttl = ttl; rdata = rdata }
                  ∷ [])))

-- Behind the header: the questions and the three sections.
unfoldable pub nbns_body : Bytes → ℕ → ℕ → ℕ → ℕ → ℕ → ℕ → ℕ → Outcome Nbns
nbns_body data' offset id flags qd_count an_count ns_count ar_count =
    and_then (nbns_questions qd_count data' offset []) λ questions offset1.
      and_then (nbns_records an_count data' offset1 []) λ answers offset2.
        and_then (nbns_records ns_count data' offset2 []) λ authorities offset3.
          and_then (nbns_records ar_count data' offset3 []) λ additionals offset4.
            ok
              (record {
                id = id;
                is_response = flags / 32768 % 2 == 1;
                opcode = flags / 2048 % 16;
                rcode = flags % 16;
                questions = questions;
                answers = answers;
                authorities = authorities;
                additionals = additionals;
              })
              offset4

unfoldable pub decode_nbns : Bytes → ℕ → Outcome Nbns
decode_nbns data' offset =
    if ltb (length data') (offset + 12) then err truncated_header offset else do
      id ← be16 (drop offset data') 0
      flags ← be16 (drop offset data') 2
      qd_count ← be16 (drop offset data') 4
      an_count ← be16 (drop offset data') 6
      ns_count ← be16 (drop offset data') 8
      ar_count ← be16 (drop offset data') 10
      nbns_body data' (offset + 12) id flags qd_count an_count ns_count ar_count

pub record Nbdgm : Type 0 where
  pub message_type : ℕ
  pub flags : ℕ
  pub dgm_id : ℕ
  pub source_ip : Bytes
  pub source_port : ℕ
  pub dgm_length : ℕ
  pub packet_offset : ℕ
  pub source_name : Bytes
  pub destination_name : Bytes

-- Direct and broadcast datagrams name their ends.
unfoldable pub datagram_names : Bytes → ℕ → Nbdgm → Outcome Nbdgm
datagram_names data' offset hdr =
    if leb 16 hdr.message_type && leb hdr.message_type 18
    then (if ltb (length data') (offset + 4) then err truncated_header offset else do
      dgm_length ← be16 data' offset
      packet_offset ← be16 data' (offset + 2)
      and_then (decode_netbios_name data' (offset + 4)) λ source_name offset1.
          and_then (decode_netbios_name data' offset1) λ destination_name offset2.
            ok
              (record hdr {
                dgm_length = dgm_length;
                packet_offset = packet_offset;
                source_name = source_name;
                destination_name = destination_name;
              })
              offset2)
    else ok hdr offset

unfoldable pub decode_nbdgm : Bytes → ℕ → Outcome Nbdgm
decode_nbdgm data' offset =
    if ltb (length data') (offset + 10) then err truncated_header offset else do
      message_type ← at (drop offset data') 0
      flags ← at (drop offset data') 1
      dgm_id ← be16 (drop offset data') 2
      source_ip ← copy (drop offset data') 4 4
      source_port ← be16 (drop offset data') 8
      datagram_names data' (offset + 10) (record {
        message_type = message_type;
        flags = flags;
        dgm_id = dgm_id;
        source_ip = source_ip;
        source_port = source_port;
        dgm_length = 0;
        packet_offset = 0;
        source_name = [];
        destination_name = [];
      })
