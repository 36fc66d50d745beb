-- ===== src/App/Dns.antt =====
-- src/protocol/dns.cpp: names with compression, and messages. The loop over a name may go on for
-- ever, so that it runs on fuel: `none` is a loop that has not ended.
pub mod Names
pub mod Labels
pub mod Messages
use fdpi.Base.{
  ℕ, zero, suc, ◌+◌, ◌*◌, ◌/◌, ◌%◌, Bool, true, false, not, Option, none, some, List, [], ◌∷◌, ◌++◌,
  length, take, drop, ltb, leb, ◌==◌, if◌then◌else◌,
}
use fdpi.Wire.{
  Bytes, Error, truncated_header, malformed_packet, Outcome, ok, err, fault, ◌>>=◌, at, be16, be32,
  copy,
}

-- The variables of `decodeName`'s loop.
pub record Cursor : Type 0 where
  pub pos : ℕ
  pub name : Bytes
  pub jumped : Bool
  pub saved_pos : ℕ

-- How one round of the loop ends.
pub data Round : Type 0 where
  goes_on : Cursor → Round
  ended : Cursor → Round

-- A compression pointer.
unfoldable pub follow_pointer : Bytes → ℕ → Cursor → ℕ → Outcome Round
follow_pointer data' dns_start c len =
    if leb (length data') (c.pos + 1) then err truncated_header c.pos else do
      b ← at data' (c.pos + 1)
      if leb (length data') (dns_start + (len % 64 * 256 + b))
          then err malformed_packet c.pos
          else ok
              (goes_on (record c {
                pos = dns_start + (len % 64 * 256 + b);
                jumped = true;
                saved_pos = if c.jumped then c.saved_pos else c.pos + 2;
              }))
              0

unfoldable pub dotted : Bytes → Bytes → Bytes
dotted [] label = label
dotted (b ∷ name) label = (b ∷ name) ++ (46 ∷ label)

unfoldable pub read_label : Bytes → Cursor → ℕ → Outcome Round
read_label data' c len =
    if ltb (length data') (c.pos + 1 + len) then err truncated_header (c.pos + 1) else do
      label ← copy data' (c.pos + 1) len
      ok (goes_on (record c { pos = c.pos + 1 + len; name = dotted c.name label })) 0

unfoldable pub name_round : Bytes → ℕ → Cursor → Outcome Round
name_round data' dns_start c = if leb (length data') c.pos then ok (ended c) 0 else do
  len ← at data' c.pos
  if len == 0
      then ok (ended (if c.jumped then c else record c { pos = c.pos + 1 })) 0
      else if len / 64 % 4 == 3
      then follow_pointer data' dns_start c len
      else if not (len / 64 % 4 == 0)
      then err malformed_packet c.pos
      else read_label data' c len

unfoldable pub end_name : Cursor → Outcome Bytes
end_name c = ok c.name (if c.jumped then c.saved_pos else c.pos)

unfoldable pub name_loop : ℕ → Bytes → ℕ → Cursor → Option (Outcome Bytes)
name_loop zero data' dns_start c = none
name_loop (suc fuel) data' dns_start c = elim (name_round data' dns_start c) [
  | fault ↦ some fault
  | err e o ↦ some (err e o)
  | ok (ended c') _ ↦ some (end_name c')
  | ok (goes_on c') _ ↦ name_loop fuel data' dns_start c'
]

abbrev pub at_pos : ℕ → Cursor
at_pos pos = record { pos = pos; name = []; jumped = false; saved_pos = 0 }

-- `decodeName`, whose `depth` is always 0.
unfoldable pub decode_name : ℕ → Bytes → ℕ → ℕ → Option (Outcome Bytes)
decode_name fuel data' dns_start pos = name_loop fuel data' dns_start (at_pos pos)

-- A call that may not end, and then the rest.
unfoldable pub after {ℓ κ} :
    {A : Type ℓ} {B : Type κ}
    → Option (Outcome A)
    → (A → ℕ → Option (Outcome B))
    → Option (Outcome B)
after none f = none
after (some (ok a o)) f = f a o
after (some (err e o)) f = some (err e o)
after (some fault) f = some fault

pub record DnsQuestion : Type 0 where
  pub name : Bytes
  pub type : ℕ
  pub qclass : ℕ

pub record DnsRecord : Type 0 where
  pub name : Bytes
  pub type : ℕ
  pub rclass : ℕ
  pub ttl : ℕ
  pub rdata : Bytes

-- What follows the name of a question.
unfoldable pub question_fields : Bytes → Bytes → ℕ → Outcome DnsQuestion
question_fields data' name pos =
    if ltb (length data') (pos + 4) then err truncated_header pos else do
      type ← be16 data' pos
      qclass ← be16 data' (pos + 2)
      ok (record { name = name; type = type; qclass = qclass }) (pos + 4)

unfoldable pub decode_question : ℕ → Bytes → ℕ → ℕ → Option (Outcome DnsQuestion)
decode_question fuel data' dns_start pos =
    after (decode_name fuel data' dns_start pos) λ name o. some (question_fields data' name o)

-- What follows the name of a record.
unfoldable pub record_fields : Bytes → Bytes → ℕ → Outcome DnsRecord
record_fields data' name pos =
    if ltb (length data') (pos + 10) then err truncated_header pos else do
      type ← be16 data' pos
      rclass ← be16 data' (pos + 2)
      ttl ← be32 data' (pos + 4)
      rdlen ← be16 data' (pos + 8)
      if ltb (length data') (pos + 10 + rdlen) then err truncated_header (pos + 10) else do
        rdata ← copy data' (pos + 10) rdlen
        ok (record { name = name; type = type; rclass = rclass; ttl = ttl; rdata = rdata })
            (pos + 10 + rdlen)

unfoldable pub decode_record : ℕ → Bytes → ℕ → ℕ → Option (Outcome DnsRecord)
decode_record fuel data' dns_start pos =
    after (decode_name fuel data' dns_start pos) λ name o. some (record_fields data' name o)

-- A loop over the entries of one section.
unfoldable pub entries {ℓ} :
    {A : Type ℓ} → (ℕ → Option (Outcome A)) → ℕ → ℕ → Option (Outcome (List A))
entries decode zero pos = some (ok [] pos)
entries decode (suc n) pos =
    after (decode pos) λ a o. after (entries decode n o) λ rest o'. some (ok (a ∷ rest) o')

pub record Dns : Type 0 where
  pub id : ℕ
  pub is_response : Bool
  pub opcode : ℕ
  pub rcode : ℕ
  pub authoritative : Bool
  pub truncated : Bool
  pub recursion_desired : Bool
  pub recursion_available : Bool
  pub questions : List DnsQuestion
  pub answers : List DnsRecord
  pub authorities : List DnsRecord
  pub additionals : List DnsRecord

-- The flags of the header, and the counts of the four sections.
pub record DnsHeader : Type 0 where
  pub id : ℕ
  pub flags : ℕ
  pub qdcount : ℕ
  pub ancount : ℕ
  pub nscount : ℕ
  pub arcount : ℕ

unfoldable pub dns_header : Bytes → ℕ → Outcome DnsHeader
dns_header data' offset =
    if ltb (length data') (offset + 12) then err truncated_header offset else do
      id ← be16 (drop offset data') 0
      flags ← be16 (drop offset data') 2
      qdcount ← be16 (drop offset data') 4
      ancount ← be16 (drop offset data') 6
      nscount ← be16 (drop offset data') 8
      arcount ← be16 (drop offset data') 10
      ok
          (record {
            id = id;
            flags = flags;
            qdcount = qdcount;
            ancount = ancount;
            nscount = nscount;
            arcount = arcount;
          })
          (offset + 12)

unfoldable pub message :
    DnsHeader → List DnsQuestion → List DnsRecord → List DnsRecord → List DnsRecord → Dns
message h questions answers authorities additionals = record {
  id = h.id;
  is_response = h.flags / 32768 % 2 == 1;
  opcode = h.flags / 2048 % 16;
  rcode = h.flags % 16;
  authoritative = h.flags / 1024 % 2 == 1;
  truncated = h.flags / 512 % 2 == 1;
  recursion_desired = h.flags / 256 % 2 == 1;
  recursion_available = h.flags / 128 % 2 == 1;
  questions = questions;
  answers = answers;
  authorities = authorities;
  additionals = additionals;
}

-- `decodeDns` up to the write of its offset.
unfoldable pub dns_sections : ℕ → Bytes → ℕ → Option (Outcome Dns)
dns_sections fuel data' offset = after (some (dns_header data' offset)) λ h o.
    after (entries (decode_question fuel data' offset) h.qdcount o) λ questions o₁.
      after (entries (decode_record fuel data' offset) h.ancount o₁) λ answers o₂.
        after (entries (decode_record fuel data' offset) h.nscount o₂) λ authorities o₃.
          after (entries (decode_record fuel data' offset) h.arcount o₃)
            λ additionals o₄. some (ok (message h questions answers authorities additionals) o₄)

-- An error leaves the offset as it was.
unfoldable pub keep_offset {ℓ} : {A : Type ℓ} → ℕ → Outcome A → Outcome A
keep_offset offset (err e _) = err e offset
keep_offset offset (ok a o) = ok a o
keep_offset offset fault = fault

unfoldable pub decode_dns : ℕ → Bytes → ℕ → Option (Outcome Dns)
decode_dns fuel data' offset = elim (dns_sections fuel data' offset) [
  | none ↦ none
  | some r ↦ some (keep_offset offset r)
]
