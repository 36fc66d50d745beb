-- ===== src/Link.antt =====
-- src/datalink.cpp: the link-layer decoders and their choice by the capture's link type. The
-- decoders of 802.11 frames are in Link/Wifi.antt. `read32Native` is read as on a little-endian
-- host.
pub mod Wifi
pub mod Llc
pub mod Bounds
use fdpi.Base.{
  ℕ, ◌+◌, ◌*◌, ◌/◌, ◌%◌, Bool, true, false, ◌&&◌, ◌||◌, some, [], ◌∷◌, length, drop, ltb, leb, ◌==◌,
  if◌then◌else◌,
}
use fdpi.Wire.{
  Bytes, Error, truncated_header, unsupported_protocol, unsupported_data_link, Outcome, ok, err,
  ◌>>=◌, and_then, at, be16, le16, copy,
}
use fdpi.Header.Ethernet.{decode_ethernet}
use fdpi.Link.Llc.{LinkLayerResult, link, decode_llc_snap}
use fdpi.Link.Wifi.{decode_wifi}

-- `enum class DataLinkType`; the underlying `uint16_t` can also hold other values.
pub data DataLinkType : Type 0 where
  dlt_null dlt_en10mb dlt_ieee802_5 dlt_ppp dlt_fddi dlt_raw : DataLinkType
  dlt_ieee802_11 dlt_linux_sll dlt_ieee802_11_radiotap dlt_linux_sll2 : DataLinkType
  dlt_other : ℕ → DataLinkType

unfoldable pub byte_swap32 : ℕ → ℕ
byte_swap32 val =
    val / 16777216 % 256 + val / 65536 % 256 * 256 + val / 256 % 256 * 65536 + val % 256 * 16777216

-- The end of `decodeBsdNull`: the address family, with its bytes in the other order if it is
-- not below 256.
unfoldable pub bsd_family : ℕ → ℕ → Outcome LinkLayerResult
bsd_family val offset =
    let af = if ltb 255 val then byte_swap32 val else val in
    if af == 2
    then ok (link 2048) offset
    else if af == 10 || af == 24 || af == 28 || af == 30
    then ok (link 34525) offset
    else err unsupported_protocol offset

unfoldable pub decode_bsd_null : Bytes → ℕ → Outcome LinkLayerResult
decode_bsd_null data' offset =
    if ltb (length data') (offset + 4) then err truncated_header offset else do
      low ← le16 (drop offset data') 0
      high ← le16 (drop offset data') 2
      bsd_family (low + high * 65536) (offset + 4)

unfoldable pub decode_ethernet_dlt : Bytes → ℕ → Outcome LinkLayerResult
decode_ethernet_dlt data' offset = and_then (decode_ethernet data' offset) λ eth o.
    ok (record (link eth.ether_type) { has_macs = true; src_mac = eth.src; dst_mac = eth.dst }) o

unfoldable pub decode_raw_ip : Bytes → ℕ → Outcome LinkLayerResult
decode_raw_ip data' offset = if leb (length data') offset then err truncated_header offset else do
  b ← at (drop offset data') 0
  if b / 16 % 16 == 4
      then ok (link 2048) offset
      else if b / 16 % 16 == 6
      then ok (link 34525) offset
      else err unsupported_protocol offset

unfoldable pub ppp_type : ℕ → ℕ → Outcome LinkLayerResult
ppp_type protocol offset =
    if protocol == 33
    then ok (link 2048) offset
    else if protocol == 87
    then ok (link 34525) offset
    else err unsupported_protocol offset

-- The protocol field behind the address and control bytes: one byte if that is odd.
unfoldable pub ppp_protocol : Bytes → ℕ → ℕ → Outcome LinkLayerResult
ppp_protocol data' offset hdr_start = do
  b ← at (drop offset data') hdr_start
  if b % 2 == 1
      then ppp_type b (offset + hdr_start + 1)
      else if ltb (length data') (offset + hdr_start + 2)
      then err truncated_header offset
      else (do
        protocol ← be16 (drop offset data') hdr_start
        ppp_type protocol (offset + hdr_start + 2))

unfoldable pub decode_ppp : Bytes → ℕ → Outcome LinkLayerResult
decode_ppp data' offset =
    if leb (length data') offset
    then err truncated_header offset
    else if ltb (length data') (offset + 2)
    then ppp_protocol data' offset 0
    else do
      a ← at (drop offset data') 0
      b ← at (drop offset data') 1
      if a == 255 && b == 3
          then (if ltb (length data') (offset + 2 + 1)
              then err truncated_header offset
              else ppp_protocol data' offset 2)
          else ppp_protocol data' offset 0

unfoldable pub decode_linux_sll : Bytes → ℕ → Outcome LinkLayerResult
decode_linux_sll data' offset =
    if ltb (length data') (offset + 16) then err truncated_header offset else do
      addr_len ← be16 (drop offset data') 4
      protocol ← be16 (drop offset data') 14
      if leb 6 addr_len
          then (do
            src ← copy (drop offset data') 6 6
            ok (record (link protocol) { has_macs = true; src_mac = src }) (offset + 16))
          else ok (link protocol) (offset + 16)

unfoldable pub decode_linux_sll2 : Bytes → ℕ → Outcome LinkLayerResult
decode_linux_sll2 data' offset =
    if ltb (length data') (offset + 20) then err truncated_header offset else do
      protocol ← be16 (drop offset data') 0
      addr_len ← at (drop offset data') 11
      if leb 6 addr_len
          then (do
            src ← copy (drop offset data') 12 6
            ok (record (link protocol) { has_macs = true; src_mac = src }) (offset + 20))
          else ok (link protocol) (offset + 20)

-- The source routing field, whose length is in the low bits of its first byte, is skipped.
unfoldable pub skip_routing : Bytes → ℕ → LinkLayerResult → Outcome LinkLayerResult
skip_routing data' offset result =
    if ltb (length data') (offset + 2) then err truncated_header offset else do
      b ← at (drop offset data') 0
      if ltb (b % 32) 2 || ltb (length data') (offset + b % 32)
          then err truncated_header offset
          else decode_llc_snap data' (offset + b % 32) result

-- The top bit of the source address marks source routing, and is cleared.
unfoldable pub decode_token_ring : Bytes → ℕ → Outcome LinkLayerResult
decode_token_ring data' offset =
    if ltb (length data') (offset + 14) then err truncated_header offset else do
      dst ← copy (drop offset data') 2 6
      first ← at (drop offset data') 8
      rest ← copy (drop offset data') 9 5
      let result = record (link 0) { has_macs = true; src_mac = first % 128 ∷ rest; dst_mac = dst }
      if leb 128 first
          then skip_routing data' (offset + 14) result
          else decode_llc_snap data' (offset + 14) result

unfoldable pub decode_fddi : Bytes → ℕ → Outcome LinkLayerResult
decode_fddi data' offset =
    if ltb (length data') (offset + 13) then err truncated_header offset else do
      dst ← copy (drop offset data') 1 6
      src ← copy (drop offset data') 7 6
      decode_llc_snap data' (offset + 13)
          (record (link 0) { has_macs = true; src_mac = src; dst_mac = dst })

unfoldable pub decode_radiotap : Bytes → ℕ → Outcome LinkLayerResult
decode_radiotap data' offset =
    if ltb (length data') (offset + 8) then err truncated_header offset else do
      radiotap_len ← le16 (drop offset data') 2
      if ltb radiotap_len 8 || ltb (length data') (offset + radiotap_len)
          then err truncated_header offset
          else decode_wifi data' (offset + radiotap_len)

unfoldable pub resolve_data_link : DataLinkType → Bytes → ℕ → Outcome LinkLayerResult
resolve_data_link dlt_null data' offset = decode_bsd_null data' offset
resolve_data_link dlt_en10mb data' offset = decode_ethernet_dlt data' offset
resolve_data_link dlt_raw data' offset = decode_raw_ip data' offset
resolve_data_link dlt_ppp data' offset = decode_ppp data' offset
resolve_data_link dlt_linux_sll data' offset = decode_linux_sll data' offset
resolve_data_link dlt_linux_sll2 data' offset = decode_linux_sll2 data' offset
resolve_data_link dlt_ieee802_5 data' offset = decode_token_ring data' offset
resolve_data_link dlt_fddi data' offset = decode_fddi data' offset
resolve_data_link dlt_ieee802_11 data' offset = decode_wifi data' offset
resolve_data_link dlt_ieee802_11_radiotap data' offset = decode_radiotap data' offset
resolve_data_link (dlt_other _) data' offset = err unsupported_data_link offset
