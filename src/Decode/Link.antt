-- ===== src/Decode/Link.antt =====
-- The link layer in `PacketDecoder::decode` of src/decoder.cpp: Ethernet on a path of its own, the
-- other link types by `resolveDataLink`, VLAN tags, and MPLS.
use fdpi.Base.{
  ℕ, zero, suc, ◌/◌, ◌%◌, Bool, true, false, Option, none, some, length, drop, ltb, ◌==◌,
  if◌then◌else◌,
}
use fdpi.Wire.{Bytes, Outcome, ok, fault, ◌>>=◌, and_then, at}
use fdpi.Header.Ethernet.{decode_ethernet, decode_vlan}
use fdpi.Header.Tunnel.{decode_mpls}
use fdpi.Link.{DataLinkType, dlt_en10mb, dlt_linux_sll, dlt_linux_sll2, resolve_data_link}
use fdpi.Link.Llc.{LinkLayerResult}
use fdpi.Decode.{Linked, is_vlan}

-- The loop over VLAN tags; the last one is kept. Each round reads four bytes.
unfoldable pub vlan_loop : ℕ → Bytes → Linked → ℕ → Outcome Linked
vlan_loop zero data' linked offset = fault
vlan_loop (suc fuel) data' linked offset =
    let more = λ (linked' : Linked) (o : ℕ). vlan_loop fuel data' linked' o in
    if is_vlan linked.ether_type
    then (and_then (decode_vlan data' offset)
        λ tag o. more (record linked { vlan = some tag; ether_type = tag.ether_type }) o)
    else ok linked offset

unfoldable pub vlan_tags : Bytes → Linked → ℕ → Outcome Linked
vlan_tags data' linked offset = vlan_loop (suc (length data')) data' linked offset

-- The fast path for Ethernet.
unfoldable pub ethernet_link : Bytes → Outcome Linked
ethernet_link data' = and_then (decode_ethernet data' 0) λ eth o.
    vlan_tags data'
      (record { ethernet = some eth; wifi = none; vlan = none; ether_type = eth.ether_type }) o

unfoldable pub linked_of : LinkLayerResult → Linked
linked_of result = record {
  ethernet =
      if result.has_macs
      then some
          (record { dst = result.dst_mac; src = result.src_mac; ether_type = result.ether_type })
      else none;
  wifi = result.wifi;
  vlan = none;
  ether_type = result.ether_type;
}

unfoldable pub is_cooked : DataLinkType → Bool
is_cooked dlt_linux_sll = true
is_cooked dlt_linux_sll2 = true
is_cooked _ = false

-- The dispatch by link type; only the captures of Linux may carry VLAN tags.
unfoldable pub generic_link : DataLinkType → Bytes → Outcome Linked
generic_link dlt data' = and_then (resolve_data_link dlt data' 0) λ result o.
    if is_cooked dlt then vlan_tags data' (linked_of result) o else ok (linked_of result) o

unfoldable pub link_layer : DataLinkType → Bytes → Outcome Linked
link_layer dlt_en10mb data' = ethernet_link data'
link_layer dlt data' = generic_link dlt data'

-- IPv4 or IPv6 by the first nibble behind the labels, `none` for neither. At the end of the
-- buffer the type stays as it was.
unfoldable pub nibble_type : ℕ → Bytes → ℕ → Outcome (Option ℕ)
nibble_type ether_type data' offset =
    if ltb offset (length data')
    then (do
      b ← at (drop offset data') 0
      if b / 16 % 16 == 4
          then ok (some 2048) offset
          else if b / 16 % 16 == 6
          then ok (some 34525) offset
          else ok none offset)
    else ok (some ether_type) offset

unfoldable pub mpls_layer : Bytes → ℕ → ℕ → Outcome (Option ℕ)
mpls_layer data' ether_type offset =
    if ether_type == 34887
    then (and_then (decode_mpls data' offset) λ _ o. nibble_type ether_type data' o)
    else ok (some ether_type) offset
