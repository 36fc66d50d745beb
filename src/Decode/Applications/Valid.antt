-- ===== src/Decode/Applications/Valid.antt =====
-- `PacketDecoder::decode` of src/decoder.cpp with its `decodeL7`.
use fdpi.Base.{ℕ, ◌≡◌, true, none}
use fdpi.Wire.{Bytes}
use fdpi.Flow.{AppProtocol, FlowId}
use fdpi.Decode.{Layer4}
use fdpi.Decode.Applications.{L7States, decode_l7}
use fdpi.Decode.Applications.Offsets.{may_not_return}

-- Bytes of a protocol whose decoder may not return, at which it does not.
abbrev pub IsStuck : ℕ → Type 0
IsStuck fuel =
    (states : L7States) × (transport : Layer4) × (id : FlowId) × (protocol : AppProtocol)
    × (data' : Bytes) × (may_not_return protocol ≡ true)
    × (decode_l7 fuel states transport id protocol data' ≡ none)
