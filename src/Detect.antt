-- ===== src/Detect.antt =====
-- src/detection.cpp: the protocol of a flow, from the payloads of its packets. The mutex makes
-- every call of `detectFlow` one step.
pub mod Words
pub mod Payload
pub mod Rules
pub mod Reads
pub mod Decision
pub mod Runs
use fdpi.Base.{
  ℕ, ◌+◌, ◌%◌, ◌^◌, Bool, true, false, ◌&&◌, ◌||◌, not, Option, none, some, List, [], ◌∷◌, length,
  leb, ◌==◌, if◌then◌else◌,
}
use fdpi.Base.Assoc.{lookup, insert}
use fdpi.Wire.{Bytes, be16}
use fdpi.Flow.{AppProtocol, FlowId, flow_id_eq}
use fdpi.Detect.Rules.{detect_single}
use fdpi.Detect.Payload.{Layer4, is_udp, between, when, reading, Test}

pub record FlowDetectionState : Type 0 where
  pub packets_seen : ℕ
  pub result : AppProtocol
  pub decided : Bool

abbrev pub undecided : FlowDetectionState
undecided = record { packets_seen = 0; result = AppProtocol.unknown; decided = false }

-- `Impl`: the state of every flow, and the ports of TFTP conversations.
pub record Engine : Type 0 where
  pub flow_states : List (FlowId × FlowDetectionState)
  pub tftp_ports : List ℕ

unfoldable pub or_undecided : Option FlowDetectionState → FlowDetectionState
or_undecided none = undecided
or_undecided (some state) = state

-- `mImpl->flowStates[flowId]`
unfoldable pub state_of : FlowId → Engine → FlowDetectionState
state_of id engine = or_undecided (lookup id engine.flow_states)

unfoldable pub is_unknown : AppProtocol → Bool
is_unknown AppProtocol.unknown = true
is_unknown _ = false

unfoldable pub is_tftp : AppProtocol → Bool
is_tftp AppProtocol.tftp = true
is_tftp _ = false

-- STUN, DTLS and RTCP, which a decided flow still tells apart packet by packet.
unfoldable pub is_multiplexed : AppProtocol → Bool
is_multiplexed AppProtocol.stun = true
is_multiplexed AppProtocol.dtls = true
is_multiplexed AppProtocol.rtcp = true
is_multiplexed _ = false

unfoldable pub contains : List ℕ → ℕ → Bool
contains [] port = false
contains (p ∷ ports) port = p == port || contains ports port

-- The opcode of a packet between ports of a TFTP conversation.
unfoldable pub follows_tftp : List ℕ → FlowId → Layer4 → Bytes → AppProtocol → Test
follows_tftp ports id l p detected =
    when
      (is_unknown detected
        && is_udp l
        && (contains ports id.src_port || contains ports id.dst_port)
        && leb 4 (length p))
      (reading (be16 p 0) (between 1 5))

unfoldable pub add_port : ℕ → List ℕ → List ℕ
add_port port ports = if not (port == 69) && not (contains ports port) then port ∷ ports else ports

-- When TFTP is detected, both ports are followed.
unfoldable pub note_ports : FlowId → AppProtocol → List ℕ → List ℕ
note_ports id detected ports =
    if is_tftp detected then add_port id.dst_port (add_port id.src_port ports) else ports

-- The state after one more packet, in which `detected` was found.
unfoldable pub conclude : ℕ → FlowDetectionState → AppProtocol → FlowDetectionState
conclude max_packets state detected =
    let seen = (state.packets_seen + 1) % 2 ^ 64 in
    if is_unknown detected
    then record state { packets_seen = seen; decided = leb max_packets seen }
    else record { packets_seen = seen; result = detected; decided = true }

-- The end of `detectFlow`, with what the packet shows.
unfoldable pub settle : Engine → FlowId → ℕ → AppProtocol → Engine × AppProtocol
settle engine id max_packets detected =
    let state = conclude max_packets (state_of id engine) detected in
    (
      record {
        flow_states = insert id state engine.flow_states;
        tftp_ports = note_ports id detected engine.tftp_ports;
      },
      state.result,
    )

-- A packet of a flow that is not decided: what it shows by itself, or as part of a conversation.
unfoldable pub detected_in : List ℕ → FlowId → Layer4 → Bytes → Option AppProtocol
detected_in ports id l p = elim (detect_single l p) [
  | none ↦ none
  | some detected ↦ elim (follows_tftp ports id l p detected) [
    | none ↦ none
    | some follows ↦ some (if follows then AppProtocol.tftp else detected)
  ]
]

-- The engine that the call leaves with its result; `none` if a test reads outside the payload.
unfoldable pub detect_flow : Engine → FlowId → Layer4 → Bytes → ℕ → Option (Engine × AppProtocol)
detect_flow engine id l p max_packets =
    if (state_of id engine).decided
    then (if is_multiplexed (state_of id engine).result
        then elim (detect_single l p) [ none ↦ none | some r ↦ some (engine, r) ]
        else some (engine, (state_of id engine).result))
    else elim (detected_in engine.tftp_ports id l p) [
      | none ↦ none
      | some detected ↦ some (settle engine id max_packets detected)
    ]
