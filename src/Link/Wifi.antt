-- ===== src/Link/Wifi.antt =====
-- `decodeWifi` of src/datalink.cpp: 802.11 control, management and data frames.
use fdpi.Base.{
  ℕ, ◌+◌, ◌/◌, ◌%◌, Bool, ◌&&◌, ◌||◌, none, some, length, drop, ltb, ◌==◌, if◌then◌else◌,
}
use fdpi.Wire.{Bytes, truncated_header, Outcome, ok, err, ◌>>=◌, be16, le16, copy}
use fdpi.Link.Llc.{Wifi, LinkLayerResult, link, zero_mac, decode_llc_snap}

-- The fields that every frame has, from its frame control, duration and first address.
unfoldable pub wifi_of : ℕ → ℕ → Bytes → Wifi
wifi_of frame_control duration_id addr1 = record {
  type = frame_control / 4 % 4;
  subtype = frame_control / 16 % 16;
  to_ds = frame_control / 256 % 2 == 1;
  from_ds = frame_control / 512 % 2 == 1;
  protected_frame = frame_control / 16384 % 2 == 1;
  retry = frame_control / 2048 % 2 == 1;
  duration_id = duration_id;
  addr1 = addr1;
  addr2 = none;
  addr3 = none;
  addr4 = none;
  sequence_control = 0;
}

abbrev pub with_wifi : LinkLayerResult → Wifi → LinkLayerResult
with_wifi result wifi = record result { wifi = some wifi }

unfoldable pub has_addr2 : ℕ → Bool
has_addr2 subtype = subtype == 11 || subtype == 14 || subtype == 15 || subtype == 8 || subtype == 9

unfoldable pub wifi_control : Bytes → ℕ → Wifi → Outcome LinkLayerResult
wifi_control data' offset wifi =
    if has_addr2 wifi.subtype
    then (if ltb (length data') (offset + 16) then err truncated_header offset else do
      addr2 ← copy (drop offset data') 10 6
      ok (with_wifi (link 0) (record wifi { addr2 = some addr2 })) (offset + 16))
    else ok (with_wifi (link 0) wifi) (offset + 10)

unfoldable pub wifi_management : Bytes → ℕ → Wifi → Outcome LinkLayerResult
wifi_management data' offset wifi =
    if ltb (length data') (offset + 24) then err truncated_header offset else do
      addr2 ← copy (drop offset data') 10 6
      addr3 ← copy (drop offset data') 16 6
      sequence_control ← le16 (drop offset data') 22
      ok
          (with_wifi (link 0) (record wifi {
            addr2 = some addr2;
            addr3 = some addr3;
            sequence_control = sequence_control;
          }))
          (offset + 24)

-- The size of a data frame's header: a fourth address between access points, and the QoS field.
unfoldable pub header_size : Wifi → ℕ
header_size wifi =
    (if wifi.to_ds && wifi.from_ds then 30 else 24) + (if wifi.subtype / 8 % 2 == 1 then 2 else 0)

-- The addresses of the frame's two ends, by the direction flags.
unfoldable pub data_macs : Wifi → Bytes → Bytes → Bytes → LinkLayerResult
data_macs wifi addr2 addr3 addr4 =
    if wifi.to_ds
    then (if wifi.from_ds
        then record (link 0) { dst_mac = addr3; src_mac = addr4 }
        else record (link 0) { dst_mac = addr3; src_mac = addr2 })
    else (if wifi.from_ds
        then record (link 0) { dst_mac = wifi.addr1; src_mac = addr3 }
        else record (link 0) { dst_mac = wifi.addr1; src_mac = addr2 })

unfoldable pub is_null_data : ℕ → Bool
is_null_data subtype =
    subtype == 4
    || subtype == 5
    || subtype == 6
    || subtype == 7
    || subtype == 12
    || subtype == 13
    || subtype == 14
    || subtype == 15

-- A frame without data, or with encrypted data, ends behind its header.
unfoldable pub wifi_payload : Bytes → ℕ → Wifi → LinkLayerResult → Outcome LinkLayerResult
wifi_payload data' offset wifi result =
    if is_null_data wifi.subtype || wifi.protected_frame
    then ok (with_wifi result wifi) offset
    else decode_llc_snap data' offset (with_wifi result wifi)

unfoldable pub wifi_data : Bytes → ℕ → Wifi → Outcome LinkLayerResult
wifi_data data' offset wifi =
    if ltb (length data') (offset + 24)
    then err truncated_header offset
    else if ltb (length data') (offset + header_size wifi)
    then err truncated_header offset
    else do
      addr2 ← copy (drop offset data') 10 6
      addr3 ← copy (drop offset data') 16 6
      sequence_control ← le16 (drop offset data') 22
      let wifi' = record wifi {
        addr2 = some addr2;
        addr3 = some addr3;
        sequence_control = sequence_control;
      }
      if wifi.to_ds && wifi.from_ds
          then (do
            addr4 ← copy (drop offset data') 24 6
            wifi_payload data' (offset + header_size wifi) (record wifi' { addr4 = some addr4 })
                (data_macs wifi addr2 addr3 addr4))
          else wifi_payload data' (offset + header_size wifi) wifi'
              (data_macs wifi addr2 addr3 zero_mac)

unfoldable pub wifi_frame : Bytes → ℕ → Wifi → Outcome LinkLayerResult
wifi_frame data' offset wifi =
    if wifi.type == 1
    then wifi_control data' offset wifi
    else if wifi.type == 0
    then wifi_management data' offset wifi
    else wifi_data data' offset wifi

unfoldable pub decode_wifi : Bytes → ℕ → Outcome LinkLayerResult
decode_wifi data' offset =
    if ltb (length data') (offset + 10) then err truncated_header offset else do
      frame_control ← le16 (drop offset data') 0
      duration_id ← be16 (drop offset data') 2
      addr1 ← copy (drop offset data') 4 6
      wifi_frame data' offset (wifi_of frame_control duration_id addr1)
