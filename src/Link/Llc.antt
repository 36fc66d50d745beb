-- ===== src/Link/Llc.antt =====
-- What the link-layer decoders of src/datalink.cpp return, and the LLC/SNAP header that three of
-- them end with.
use fdpi.Base.{
  ℕ, ◌+◌, Bool, false, not, ◌||◌, Option, none, [], ◌∷◌, length, drop, ltb, ◌==◌, if◌then◌else◌,
}
use fdpi.Wire.{Bytes, truncated_header, unsupported_protocol, Outcome, ok, err, ◌>>=◌, at, be16}

-- include/fdpi/protocol/wifi.hpp
pub record Wifi : Type 0 where
  pub type : ℕ
  pub subtype : ℕ
  pub to_ds : Bool
  pub from_ds : Bool
  pub protected_frame : Bool
  pub retry : Bool
  pub duration_id : ℕ
  pub addr1 : Bytes
  pub addr2 : Option Bytes
  pub addr3 : Option Bytes
  pub addr4 : Option Bytes
  pub sequence_control : ℕ

pub record LinkLayerResult : Type 0 where
  pub ether_type : ℕ
  pub has_macs : Bool
  pub src_mac : Bytes
  pub dst_mac : Bytes
  pub wifi : Option Wifi

abbrev pub zero_mac : Bytes
zero_mac = 0 ∷ 0 ∷ 0 ∷ 0 ∷ 0 ∷ 0 ∷ []

-- `LinkLayerResult result{}` with its `etherType`.
abbrev pub link : ℕ → LinkLayerResult
link ether_type = record {
  ether_type = ether_type;
  has_macs = false;
  src_mac = zero_mac;
  dst_mac = zero_mac;
  wifi = none;
}

-- `decodeLlcSnap`, with the end of its callers: the type that it reads is the result's.
unfoldable pub decode_llc_snap : Bytes → ℕ → LinkLayerResult → Outcome LinkLayerResult
decode_llc_snap data' offset result =
    if ltb (length data') (offset + 8) then err truncated_header offset else do
      dsap ← at (drop offset data') 0
      ssap ← at (drop offset data') 1
      ctrl ← at (drop offset data') 2
      if not (dsap == 170) || not (ssap == 170) || not (ctrl == 3)
          then err unsupported_protocol offset
          else (do
            ether_type ← be16 (drop offset data') 6
            ok (record result { ether_type = ether_type }) (offset + 8))
