-- ===== src/Tests/Decoders.antt =====
-- The decoders on small packets.
use fdpi.Base.{[], ◌∷◌, length, arith}
use fdpi.Wire.{Bytes}
use fdpi.Wire.Bounded.{Bounded}
use fdpi.Link.{dlt_ieee802_11_radiotap, resolve_data_link}
use fdpi.Link.Bounds.Resolve.{resolve_data_link-Bounded}

-- A radiotap header in front of an acknowledgement.
abbrev acknowledged : Bytes
acknowledged = 0 ∷ 0 ∷ 8 ∷ 0 ∷ 0 ∷ 0 ∷ 0 ∷ 0 ∷ 212 ∷ 0 ∷ 0 ∷ 0 ∷ 1 ∷ 2 ∷ 3 ∷ 4 ∷ 5 ∷ 6 ∷ []

resolve_example :
    Bounded 0 (length acknowledged) (resolve_data_link dlt_ieee802_11_radiotap acknowledged 0)
resolve_example = resolve_data_link-Bounded acknowledged 0 (omega arith) dlt_ieee802_11_radiotap
