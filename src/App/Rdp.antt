-- ===== src/App/Rdp.antt =====
-- `decodeRdp` of src/protocol/rdp.cpp. The payload's size is a difference of two `size_t` numbers, which
-- wraps around; a view of the payload that leaves the buffer is a fault.
pub mod Bounds
use fdpi.Base.{
  ℕ, ◌+◌, ◌-◌, ◌*◌, ◌/◌, ◌%◌, ◌^◌, Bool, not, ◌&&◌, Option, none, some, [], ◌∷◌, length, take, drop,
  leb, ltb, ◌==◌, if◌then◌else◌,
}
use fdpi.Wire.{
  Bytes, Outcome, ok, err, truncated_header, malformed_packet, ◌>>=◌, and_then, at, be16, copy,
}
use fdpi.App.Line.{starts_with, find_text, crlf}
use fdpi.App.Rtmp.{le32}

pub record Rdp : Type 0 where
  pub tpkt_version : ℕ
  pub tpkt_length : ℕ
  pub x224_type : ℕ
  pub dst_ref : ℕ
  pub src_ref : ℕ
  pub class_option : ℕ
  pub requested_protocols : Option ℕ
  pub selected_protocol : Option ℕ
  pub cookie : Option Bytes

-- `static_cast<size_t>(rdp.tpktLength) - kMinSize`
unfoldable pub payload_size : ℕ → ℕ
payload_size tpkt_length = (tpkt_length + 2 ^ 64 - 11) % 2 ^ 64

-- From `Cookie:` to the end of its line.
unfoldable pub cookie_of : Bytes → Option Bytes
cookie_of s = elim (find_text (67 ∷ 111 ∷ 111 ∷ 107 ∷ 105 ∷ 101 ∷ 58 ∷ []) s) [
  | none ↦ none
  | some n ↦ elim (find_text crlf (drop n s)) [
    | none ↦ none
    | some m ↦ some (take (m + 2) (drop n s))
  ]
]

-- The first negotiation structure of a kind: eight bytes, the last four of which are its value.
unfoldable pub negotiation : ℕ → Bytes → Option ℕ
negotiation kind [] = none
negotiation kind (b ∷ s) =
    let rest = negotiation kind s in
    if leb 7 (length s) && starts_with (kind ∷ 0 ∷ 8 ∷ 0 ∷ []) (b ∷ s) then le32 (b ∷ s) 4 else rest

-- A connection request or confirmation; another type has no payload to look into.
unfoldable pub rdp_payload : Bytes → ℕ → ℕ → Rdp → ℕ → Outcome Rdp
rdp_payload data' pos size rdp end =
    if rdp.x224_type == 224
    then (do
      payload ← copy data' pos size
      ok (record rdp { cookie = cookie_of payload; requested_protocols = negotiation 1 payload })
          end)
    else if rdp.x224_type == 208
    then (do
      payload ← copy data' pos size
      ok (record rdp { selected_protocol = negotiation 2 payload }) end)
    else ok rdp end

unfoldable pub rdp_body : Bytes → ℕ → ℕ → Outcome Rdp
rdp_body data' offset tpkt_length = do
  type ← at (drop offset data') 5
  dst_ref ← be16 (drop offset data') 6
  src_ref ← be16 (drop offset data') 8
  class_option ← at (drop offset data') 10
  rdp_payload data' (offset + 11) (payload_size tpkt_length)
      (record {
        tpkt_version = 3;
        tpkt_length = tpkt_length;
        x224_type = type / 16 * 16;
        dst_ref = dst_ref;
        src_ref = src_ref;
        class_option = class_option;
        requested_protocols = none;
        selected_protocol = none;
        cookie = none;
      })
      (offset + tpkt_length)

unfoldable pub decode_rdp : Bytes → ℕ → Outcome Rdp
decode_rdp data' offset =
    if ltb (length data') (offset + 11) then err truncated_header offset else do
      tpkt_version ← at (drop offset data') 0
      tpkt_length ← be16 (drop offset data') 2
      if not (tpkt_version == 3)
          then err malformed_packet offset
          else if ltb (length data') (offset + tpkt_length)
          then err truncated_header offset
          else rdp_body data' offset tpkt_length
