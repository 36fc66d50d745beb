-- ===== src/Decode/Transport.antt =====
-- The transport layer in `PacketDecoder::decode` of src/decoder.cpp.
use fdpi.Base.{ℕ, Option, none, some, ◌==◌, if◌then◌else◌}
use fdpi.Wire.{Bytes, Outcome, ok, and_then, or_none}
use fdpi.Header.Icmp.{decode_icmp, decode_icmpv6}
use fdpi.Header.Other.{decode_igmp, decode_esp}
use fdpi.Header.Transport.{decode_tcp, decode_udp}
use fdpi.Decode.{Layer4, no_layer4, tcp, udp, icmp, icmpv6, igmp, esp}

-- A protocol that is none of these leaves the transport layer empty.
unfoldable pub transport_layer : ℕ → Bytes → ℕ → Outcome Layer4
transport_layer protocol data' offset =
    if protocol == 6
    then (and_then (decode_tcp data' offset) λ h o. ok (tcp h) o)
    else if protocol == 17
    then (and_then (decode_udp data' offset) λ h o. ok (udp h) o)
    else if protocol == 1
    then (and_then (decode_icmp data' offset) λ h o. ok (icmp h) o)
    else if protocol == 58
    then (and_then (decode_icmpv6 data' offset) λ h o. ok (icmpv6 h) o)
    else if protocol == 2
    then (and_then (decode_igmp data' offset) λ h o. ok (igmp h) o)
    else if protocol == 50
    then (and_then (decode_esp data' offset) λ h o. ok (esp h) o)
    else ok no_layer4 offset

-- What a call that may fail sets: its header, or nothing.
abbrev pub set {ℓ κ} : {A : Type ℓ} {B : Type κ} → (A → B) → B → Option A → B
set layer old none = old
set layer old (some h) = layer h

-- The transport layer inside a tunnel, whose errors are passed over.
unfoldable pub inner_transport : ℕ → Layer4 → Bytes → ℕ → Outcome Layer4
inner_transport protocol layer4 data' offset =
    if protocol == 6
    then (or_none (decode_tcp data' offset) λ h o. ok (set tcp layer4 h) o)
    else if protocol == 17
    then (or_none (decode_udp data' offset) λ h o. ok (set udp layer4 h) o)
    else if protocol == 1
    then (or_none (decode_icmp data' offset) λ h o. ok (set icmp layer4 h) o)
    else if protocol == 58
    then (or_none (decode_icmpv6 data' offset) λ h o. ok (set icmpv6 layer4 h) o)
    else ok layer4 offset
