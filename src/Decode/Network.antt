-- ===== src/Decode/Network.antt =====
-- The network layer in `PacketDecoder::decode` of src/decoder.cpp, with IPv4 fragments, the IPv6
-- fragment header and GRE.
use fdpi.Base.{
  ℕ, ◌+◌, ◌-◌, ◌*◌, ◌/◌, Bool, true, false, ◌&&◌, none, some, length, drop, ltb, ◌==◌,
  if◌then◌else◌,
}
use fdpi.Wire.{Bytes, Outcome, ok, fault, ◌>>=◌, and_then, at, be16}
use fdpi.Header.Arp.{decode_arp, decode_rarp}
use fdpi.Header.Ipv4.{Ipv4, decode_ipv4}
use fdpi.Header.Ipv6.{Ipv6, decode_ipv6}
use fdpi.Header.Lldp.{decode_lldp}
use fdpi.Header.Other.{decode_homeplug, decode_eapol}
use fdpi.Header.Tunnel.{decode_gre}
use fdpi.Defrag.{returned, reads_outside, throws_length_error, Groups, is_fragment, process}
use fdpi.Decode.{Layer3, no_layer3, ipv4, ipv6, arp, rarp, eapol, lldp, homeplug}

-- How decoding goes on: with a transport protocol, or with the packet's end, which keeps the rest
-- of the buffer for its payload or has none.
pub data Inner : Type 0 where
  transport : Layer3 → ℕ → Inner
  final : Layer3 → Bool → Inner

-- The rest of an IPv4 packet: a fragment that is not the first has no transport header.
unfoldable pub ipv4_inner : Ipv4 → Inner
ipv4_inner h =
    if ltb 0 h.fragment_offset then final (ipv4 h) true else transport (ipv4 h) h.protocol

-- A fragment goes to the defragmenter, and ends here unless its datagram is complete. An exception
-- that nobody catches is a fault as well.
unfoldable pub defragment : Groups → Bytes → Ipv4 → ℕ → Outcome (Inner × Groups)
defragment groups data' h offset = elim (process groups (drop (offset - h.ihl * 4) data') h) [
  | reads_outside ↦ fault
  | throws_length_error ↦ fault
  | returned (groups', result) ↦ elim result [
    | none ↦ ok (final (ipv4 h) false, groups') offset
    | some _ ↦ ok (ipv4_inner h, groups') offset
  ]
]

unfoldable pub ipv4_layer : Bool → Groups → Bytes → ℕ → Outcome (Inner × Groups)
ipv4_layer enable_defragmentation groups data' offset = and_then (decode_ipv4 data' offset) λ h o.
    if enable_defragmentation && is_fragment h
    then defragment groups data' h o
    else ok (ipv4_inner h, groups) o

-- The IPv6 fragment header, of which a later fragment has no transport header.
unfoldable pub ipv6_fragment : Bytes → Ipv6 → ℕ → Outcome Inner
ipv6_fragment data' h offset =
    if ltb (length data') (offset + 8) then ok (final (ipv6 h) false) offset else do
      next_header ← at (drop offset data') 0
      field ← be16 (drop offset data') 2
      if ltb 0 (field / 8)
          then ok (final (ipv6 h) true) (offset + 8)
          else ok (transport (ipv6 h) next_header) (offset + 8)

unfoldable pub ipv6_layer : Bytes → ℕ → Outcome Inner
ipv6_layer data' offset = and_then (decode_ipv6 data' offset) λ h o.
    if h.next_header == 44 then ipv6_fragment data' h o else ok (transport (ipv6 h) h.next_header) o

-- The protocols that no transport layer follows.
unfoldable pub other_layer : ℕ → Bytes → ℕ → Outcome Inner
other_layer ether_type data' offset =
    if ether_type == 2054
    then (and_then (decode_arp data' offset) λ h o. ok (final (arp h) false) o)
    else if ether_type == 32821
    then (and_then (decode_rarp data' offset) λ h o. ok (final (rarp h) false) o)
    else if ether_type == 34958
    then (and_then (decode_eapol data' offset) λ h o. ok (final (eapol h) false) o)
    else if ether_type == 35020
    then (and_then (decode_lldp data' offset) λ h o. ok (final (lldp h) false) o)
    else if ether_type == 35041
    then (and_then (decode_homeplug data' offset) λ h o. ok (final (homeplug h) false) o)
    else ok (final no_layer3 true) offset

unfoldable pub network_layer : Bool → Groups → ℕ → Bytes → ℕ → Outcome (Inner × Groups)
network_layer enable_defragmentation groups ether_type data' offset =
    if ether_type == 2048
    then ipv4_layer enable_defragmentation groups data' offset
    else if ether_type == 34525
    then (and_then (ipv6_layer data' offset) λ inner o. ok (inner, groups) o)
    else and_then (other_layer ether_type data' offset) λ inner o. ok (inner, groups) o

-- What a GRE header carries. The inner packet is not put together from fragments.
unfoldable pub gre_inner : Layer3 → ℕ → Bytes → ℕ → Outcome Inner
gre_inner layer3 protocol_type data' offset =
    if protocol_type == 2048
    then (and_then (decode_ipv4 data' offset) λ h o. ok (transport (ipv4 h) h.protocol) o)
    else if protocol_type == 34525
    then (and_then (decode_ipv6 data' offset) λ h o. ok (transport (ipv6 h) h.next_header) o)
    else ok (final layer3 true) offset

unfoldable pub gre_layer : Inner → Bytes → ℕ → Outcome Inner
gre_layer (final layer3 rest) data' offset = ok (final layer3 rest) offset
gre_layer (transport layer3 protocol) data' offset =
    if protocol == 47
    then (and_then (decode_gre data' offset) λ gre o. gre_inner layer3 gre.protocol_type data' o)
    else ok (transport layer3 protocol) offset
