-- ===== src/Link/Bounds.antt =====
-- The reads and the offset of the LLC/SNAP and 802.11 decoders of src/datalink.cpp.
pub mod Resolve
use fdpi.Base.{
  ℕ, ◌+◌, ◌*◌, ◌/◌, ◌%◌, ◌≤◌, ◌≡◌, true, false, Bool, not, ◌==◌, ◌&&◌, ◌||◌, length, drop,
  length-drop, ltb, leb, arith, if◌then◌else◌,
}
use fdpi.Wire.{Bytes, Outcome}
use fdpi.Wire.Bounded.{
  Bounded, returns, fails, Bounded-if, Bounded-weaken, Bounded-guard, Bounded-and_then, Bounded-at,
  Bounded-be16, Bounded-le16, Bounded-copy,
}
use fdpi.Header.Bounds.{decode_ethernet-Bounded}
use fdpi.Link.Llc.{Wifi, LinkLayerResult, decode_llc_snap}
use fdpi.Link.Wifi.{
  wifi_control, wifi_management, wifi_data, wifi_payload, wifi_frame, decode_wifi, has_addr2,
  header_size, is_null_data,
}

pub decode_llc_snap-Bounded :
    (data' : Bytes) (o : ℕ) (result : LinkLayerResult)
    → o ≤ length data'
    → Bounded o (length data') (decode_llc_snap data' o result)
unfolding decode_llc_snap
decode_llc_snap-Bounded data' o result h = Bounded-guard data' o 8 h λ room fits.
    Bounded-at _ _ (omega arith) λ dsap. Bounded-at _ _ (omega arith) λ ssap.
      Bounded-at _ _ (omega arith) λ ctrl.
        Bounded-if (not (dsap == 170) || not (ssap == 170) || not (ctrl == 3))
          (λ _. fails (omega arith) h)
          λ _. Bounded-be16 _ _ (omega arith) λ _. returns (omega arith) (omega arith)

module _ (data' : Bytes) (o : ℕ) (h : o ≤ length data') where
  wifi_control-Bounded :
      (wifi : Wifi) → o + 10 ≤ length data' → Bounded o (length data') (wifi_control data' o wifi)
  unfolding wifi_control
  wifi_control-Bounded wifi min =
      Bounded-if (has_addr2 wifi.subtype)
        (λ _.
          Bounded-guard data' o 16 h
            λ room fits. Bounded-copy _ _ _ (omega arith) λ _. returns (omega arith) (omega arith))
        λ _. returns (omega arith) (omega arith)

  wifi_management-Bounded : (wifi : Wifi) → Bounded o (length data') (wifi_management data' o wifi)
  unfolding wifi_management
  wifi_management-Bounded wifi = Bounded-guard data' o 24 h λ room fits.
      Bounded-copy _ _ _ (omega arith) λ _.
        Bounded-copy _ _ _ (omega arith)
          λ _. Bounded-le16 _ _ (omega arith) λ _. returns (omega arith) (omega arith)

  wifi_payload-Bounded :
      (wifi : Wifi) (result : LinkLayerResult)
      → Bounded o (length data') (wifi_payload data' o wifi result)
  unfolding wifi_payload
  wifi_payload-Bounded wifi result =
      Bounded-if (is_null_data wifi.subtype || wifi.protected_frame) (λ _. returns (omega arith) h)
        λ _. decode_llc_snap-Bounded data' o _ h

header_size-ge : (wifi : Wifi) → 24 ≤ header_size wifi
unfolding header_size
header_size-ge wifi = ground arith

header_size-four : (wifi : Wifi) → (wifi.to_ds && wifi.from_ds) ≡ true → 30 ≤ header_size wifi
unfolding header_size
header_size-four wifi e = ground arith

module _ (data' : Bytes) (o : ℕ) (h : o ≤ length data') where
  wifi_data-Bounded : (wifi : Wifi) → Bounded o (length data') (wifi_data data' o wifi)
  unfolding wifi_data
  wifi_data-Bounded wifi = Bounded-guard data' o 24 h λ _ _.
      Bounded-guard data' o (header_size wifi) h λ room fits.
        Bounded-copy _ _ _ (omega (arith, header_size-ge wifi)) λ _.
          Bounded-copy _ _ _ (omega (arith, header_size-ge wifi)) λ _.
            Bounded-le16 _ _ (omega (arith, header_size-ge wifi)) λ _.
              Bounded-if (wifi.to_ds && wifi.from_ds)
                (λ four.
                  Bounded-copy _ _ _ (omega (arith, header_size-four wifi four))
                    λ _. Bounded-weaken (omega arith) (wifi_payload-Bounded data' _ fits _ _))
                λ _. Bounded-weaken (omega arith) (wifi_payload-Bounded data' _ fits _ _)

  wifi_frame-Bounded :
      (wifi : Wifi) → o + 10 ≤ length data' → Bounded o (length data') (wifi_frame data' o wifi)
  unfolding wifi_frame
  wifi_frame-Bounded wifi fits =
      Bounded-if (wifi.type == 1) (λ _. wifi_control-Bounded data' o h wifi fits)
        λ _.
          Bounded-if (wifi.type == 0) (λ _. wifi_management-Bounded data' o h wifi)
            λ _. wifi_data-Bounded wifi

  pub decode_wifi-Bounded : Bounded o (length data') (decode_wifi data' o)
  unfolding decode_wifi
  decode_wifi-Bounded = Bounded-guard data' o 10 h λ room fits. Bounded-le16 _ _ (omega arith) λ _.
      Bounded-be16 _ _ (omega arith)
        λ _. Bounded-copy _ _ _ (omega arith) λ _. wifi_frame-Bounded _ fits
