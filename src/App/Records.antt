-- ===== src/App/Records.antt =====
-- Protocols whose messages begin with a record of fixed size: src/protocol/ntp.cpp, rtcp.cpp, dtls.cpp and
-- bgp.cpp. A signed byte is kept as the byte that it is read from.
pub mod Bounds
use fdpi.Base.{
  ℕ, zero, suc, ◌+◌, ◌*◌, ◌/◌, ◌%◌, ◌^◌, Bool, true, false, ◌&&◌, Option, none, some, List, [], ◌∷◌,
  length, drop, min, ltb, ◌==◌, if◌then◌else◌,
}
use fdpi.Wire.{
  Bytes, Outcome, ok, err, truncated_header, malformed_packet, ◌>>=◌, at, be16, be32, copy,
}

pub record Ntp : Type 0 where
  pub leap_indicator : ℕ
  pub version : ℕ
  pub mode : ℕ
  pub stratum : ℕ
  pub poll : ℕ
  pub precision : ℕ
  pub root_delay : ℕ
  pub root_dispersion : ℕ
  pub reference_id : ℕ
  pub reference_timestamp : ℕ
  pub origin_timestamp : ℕ
  pub receive_timestamp : ℕ
  pub transmit_timestamp : ℕ

-- `read64`
unfoldable pub be64 : Bytes → ℕ → Option ℕ
be64 p i = elim (be32 p i) [
  | none ↦ none
  | some a ↦ elim (be32 p (i + 4)) [ none ↦ none | some b ↦ some (a * 2 ^ 32 + b) ]
]

unfoldable pub decode_ntp : Bytes → ℕ → Outcome Ntp
decode_ntp data' offset =
    if ltb (length data') (offset + 48) then err truncated_header offset else do
      first ← at (drop offset data') 0
      stratum ← at (drop offset data') 1
      poll ← at (drop offset data') 2
      precision ← at (drop offset data') 3
      root_delay ← be32 (drop offset data') 4
      root_dispersion ← be32 (drop offset data') 8
      reference_id ← be32 (drop offset data') 12
      reference_timestamp ← be64 (drop offset data') 16
      origin_timestamp ← be64 (drop offset data') 24
      receive_timestamp ← be64 (drop offset data') 32
      transmit_timestamp ← be64 (drop offset data') 40
      ok
          (record {
            leap_indicator = first / 64 % 4;
            version = first / 8 % 8;
            mode = first % 8;
            stratum = stratum;
            poll = poll;
            precision = precision;
            root_delay = root_delay;
            root_dispersion = root_dispersion;
            reference_id = reference_id;
            reference_timestamp = reference_timestamp;
            origin_timestamp = origin_timestamp;
            receive_timestamp = receive_timestamp;
            transmit_timestamp = transmit_timestamp;
          })
          (offset + 48)

pub record Rtcp : Type 0 where
  pub version : ℕ
  pub padding : Bool
  pub reception_report_count : ℕ
  pub packet_type : ℕ
  pub words : ℕ
  pub ssrc : ℕ

-- The packet may be longer than the buffer.
unfoldable pub decode_rtcp : Bytes → ℕ → Outcome Rtcp
decode_rtcp data' offset =
    if ltb (length data') (offset + 8) then err truncated_header offset else do
      first ← at (drop offset data') 0
      packet_type ← at (drop offset data') 1
      words ← be16 (drop offset data') 2
      ssrc ← be32 (drop offset data') 4
      ok
          (record {
            version = first / 64 % 4;
            padding = first / 32 % 2 == 1;
            reception_report_count = first % 32;
            packet_type = packet_type;
            words = words;
            ssrc = ssrc;
          })
          (if ltb (length data') (offset + (words + 1) * 4)
            then length data'
            else offset + (words + 1) * 4)

pub record Dtls : Type 0 where
  pub content_type : ℕ
  pub version : ℕ
  pub epoch : ℕ
  pub sequence_number : ℕ
  pub body_length : ℕ
  pub handshake_type : Option ℕ

-- A handshake's type is read if its record has a body in the buffer.
unfoldable pub handshake_type_of : ℕ → Bytes → ℕ → Outcome (Option ℕ)
handshake_type_of content_type data' offset =
    if content_type == 22 && ltb offset (length data')
    then (do b ← at data' offset; ok (some b) offset)
    else ok none offset

unfoldable pub read_dtls : Bytes → ℕ → Outcome Dtls
read_dtls data' offset = do
  content_type ← at (drop offset data') 0
  version ← be16 (drop offset data') 1
  epoch ← be16 (drop offset data') 3
  high ← be16 (drop offset data') 5
  low ← be32 (drop offset data') 7
  body_length ← be16 (drop offset data') 11
  ok
      (record {
        content_type = content_type;
        version = version;
        epoch = epoch;
        sequence_number = high * 2 ^ 32 + low;
        body_length = body_length;
        handshake_type = none;
      })
      (offset + 13)

-- The body may be longer than the buffer.
unfoldable pub decode_dtls : Bytes → ℕ → Outcome Dtls
decode_dtls data' offset =
    if ltb (length data') (offset + 13)
    then err truncated_header offset
    else (fdpi.Wire.and_then (read_dtls data' offset) λ hdr o.
        fdpi.Wire.and_then (handshake_type_of hdr.content_type data' o) λ type o'.
          ok (record hdr { handshake_type = type })
            (if ltb (length data') (o' + hdr.body_length)
              then length data'
              else o' + hdr.body_length))

-- The fields of an OPEN message.
pub record BgpOpen : Type 0 where
  pub version : ℕ
  pub my_as : ℕ
  pub hold_time : ℕ
  pub bgp_id : Bytes

pub record Bgp : Type 0 where
  pub message_length : ℕ
  pub type : ℕ
  pub opened : Option BgpOpen

unfoldable pub all_ones : Bytes → Bool
all_ones [] = true
all_ones (b ∷ s) = b == 255 && all_ones s

unfoldable pub bgp_open : Bytes → ℕ → ℕ → ℕ → Outcome (Option BgpOpen)
bgp_open data' offset message_length type =
    if type == 1
    then (if ltb message_length 29 then err truncated_header offset else do
      version ← at (drop offset data') 19
      my_as ← be16 (drop offset data') 20
      hold_time ← be16 (drop offset data') 22
      bgp_id ← copy (drop offset data') 24 4
      ok
          (some
            (record { version = version; my_as = my_as; hold_time = hold_time; bgp_id = bgp_id }))
          offset)
    else ok none offset

-- Behind the marker. The offset moves by the announced length, whatever it is.
unfoldable pub bgp_body : Bytes → ℕ → Outcome Bgp
bgp_body data' offset = do
  message_length ← be16 (drop offset data') 16
  type ← at (drop offset data') 18
  if ltb (length data') (offset + message_length)
      then err truncated_header offset
      else (fdpi.Wire.and_then (bgp_open data' offset message_length type) λ opened o.
          ok (record { message_length = message_length; type = type; opened = opened })
            (o + message_length))

unfoldable pub decode_bgp : Bytes → ℕ → Outcome Bgp
decode_bgp data' offset =
    if ltb (length data') (offset + 19) then err truncated_header offset else do
      marker ← copy (drop offset data') 0 16
      if all_ones marker then bgp_body data' offset else err malformed_packet offset
