-- ===== src/App/Stun.antt =====
-- `decodeStun` of src/protocol/stun.cpp. An exclusive or is taken bit by bit.
pub mod Bounds
pub mod Xor
use fdpi.Base.{
  ℕ, zero, suc, ◌+◌, ◌*◌, ◌/◌, ◌%◌, Bool, ◌&&◌, Option, none, some, List, [], ◌∷◌, ◌++◌, length,
  drop, leb, ltb, ◌==◌, min, if◌then◌else◌,
}
use fdpi.Wire.{Bytes, Outcome, ok, err, truncated_header, ◌>>=◌, and_then, at, be16, be32, copy}
use fdpi.Address.{IpAddress, v4, v6}

-- `a ^ b` of two numbers of `w` bits.
unfoldable pub xor : ℕ → ℕ → ℕ → ℕ
xor zero a b = 0
xor (suc w) a b = (a + b) % 2 + 2 * xor w (a / 2) (b / 2)

pub record Stun : Type 0 where
  pub type : ℕ
  pub message_length : ℕ
  pub magic_cookie : ℕ
  pub transaction_id : Bytes
  pub is_request : Bool
  pub is_indication : Bool
  pub mapped_address : Option IpAddress
  pub mapped_port : Option ℕ

-- The class of a message is in bits 4 and 8 of its type.
unfoldable pub new_stun : ℕ → ℕ → ℕ → Bytes → Stun
new_stun type message_length magic_cookie transaction_id = record {
  type = type;
  message_length = message_length;
  magic_cookie = magic_cookie;
  transaction_id = transaction_id;
  is_request = type / 256 % 2 * 2 + type / 16 % 2 == 0;
  is_indication = type / 256 % 2 * 2 + type / 16 % 2 == 1;
  mapped_address = none;
  mapped_port = none;
}

-- The four bytes of a number of 32 bits.
unfoldable pub bytes_of : ℕ → Bytes
bytes_of a = a / 16777216 % 256 ∷ a / 65536 % 256 ∷ a / 256 % 256 ∷ a % 256 ∷ []

-- A byte of the address and a byte of the key each.
unfoldable pub xor_bytes : Bytes → Bytes → Bytes
xor_bytes [] key = []
xor_bytes (a ∷ as') [] = []
xor_bytes (a ∷ as') (k ∷ key) = xor 8 a k ∷ xor_bytes as' key

-- XOR-MAPPED-ADDRESS, whose value stands at `pos`.
unfoldable pub xor_mapped_address : Bytes → ℕ → ℕ → Stun → Outcome Stun
xor_mapped_address data' pos attr_length hdr = do
  family ← at (drop pos data') 1
  xport ← be16 (drop pos data') 2
  if family == 1
      then (do
        xaddr ← be32 (drop pos data') 4
        ok
            (record hdr {
              mapped_port = some (xor 16 xport 8466);
              mapped_address = some (v4 (bytes_of (xor 32 xaddr 554869826)));
            })
            pos)
      else if family == 2 && leb 20 attr_length
      then (do
        xaddr ← copy (drop pos data') 4 16
        ok
            (record hdr {
              mapped_port = some (xor 16 xport 8466);
              mapped_address =
                  some (v6 (xor_bytes xaddr (33 ∷ 18 ∷ 164 ∷ 66 ∷ hdr.transaction_id)));
            })
            pos)
      else ok (record hdr { mapped_port = some (xor 16 xport 8466) }) pos

-- MAPPED-ADDRESS counts only where no address is known.
unfoldable pub mapped_address_of : Bytes → ℕ → Stun → Option IpAddress → Outcome Stun
mapped_address_of data' pos hdr (some a) = ok hdr pos
mapped_address_of data' pos hdr none = do
  family ← at (drop pos data') 1
  port ← be16 (drop pos data') 2
  if family == 1
      then (do
        addr ← copy (drop pos data') 4 4
        ok (record hdr { mapped_port = some port; mapped_address = some (v4 addr) }) pos)
      else ok (record hdr { mapped_port = some port }) pos

unfoldable pub stun_attribute : ℕ → ℕ → Bytes → ℕ → Stun → Outcome Stun
stun_attribute attr_type attr_length data' pos hdr =
    if attr_type == 32 && leb 8 attr_length
    then xor_mapped_address data' pos attr_length hdr
    else if attr_type == 1 && leb 8 attr_length
    then mapped_address_of data' pos hdr hdr.mapped_address
    else ok hdr pos

-- The loop over the attributes, on fuel: each takes four bytes at least. A value is padded to four bytes.
unfoldable pub stun_attributes : ℕ → Bytes → ℕ → ℕ → Stun → Outcome Stun
stun_attributes zero data' offset attr_end hdr = ok hdr attr_end
stun_attributes (suc fuel) data' offset attr_end hdr =
    if leb (offset + 4) attr_end
    then (do
      attr_type ← be16 (drop offset data') 0
      attr_length ← be16 (drop offset data') 2
      if ltb attr_end (offset + 4 + attr_length)
          then ok hdr attr_end
          else and_then (stun_attribute attr_type attr_length data' (offset + 4) hdr) (λ hdr' _.
            stun_attributes fuel data' (offset + 4 + (attr_length + 3) / 4 * 4) attr_end hdr'))
    else ok hdr attr_end

unfoldable pub decode_stun : Bytes → ℕ → Outcome Stun
decode_stun data' offset =
    if ltb (length data') (offset + 20) then err truncated_header offset else do
      type ← be16 (drop offset data') 0
      message_length ← be16 (drop offset data') 2
      magic_cookie ← be32 (drop offset data') 4
      transaction_id ← copy (drop offset data') 8 12
      stun_attributes (length data') data' (offset + 20)
          (min (offset + 20 + message_length) (length data'))
          (new_stun type message_length magic_cookie transaction_id)
