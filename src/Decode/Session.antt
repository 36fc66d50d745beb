-- ===== src/Decode/Session.antt =====
-- `PacketDecoder` of src/decoder.cpp: its state, and `decode` from a captured frame to the packet.
-- The decoders of application protocols are a parameter with a state of their own, `decode_l7`; it is `none`
-- where `decodeL7` does not return.
pub mod Gives
pub mod Kept
pub mod Valid
pub mod Effects
pub mod Closing
use fdpi.Base.{
  ℕ, ◌+◌, ◌%◌, ◌^◌, Bool, true, false, not, ◌&&◌, ◌||◌, Option, none, some, List, [], ◌∷◌, ◌++◌,
  length, drop, ltb, ◌==◌, if◌then◌else◌,
}
use fdpi.Base.Assoc.{lookup, insert, erase}
use fdpi.Wire.{Bytes, Error, Outcome, ok, err, fault}
use fdpi.Header.Transport.{Tcp, fin, rst}
use fdpi.Flow.{AppProtocol, FlowId, flow_id_eq}
use fdpi.Flow.Table.{Flows, FlowTableConfig, update}
use fdpi.Defrag.{Groups}
use fdpi.Stream.{Streams, process}
use fdpi.Detect.{Engine, detect_flow, is_unknown}
use fdpi.Detect.Payload.{tcp_layer, udp_layer, other_layer}
use fdpi.Link.{DataLinkType}
use fdpi.Decode.{Layer4, tcp, udp, build_flow_id}
use fdpi.Decode.Layers.{Layers, Follow, returned, counted, inspected, lower_layers, higher_layers}

-- `PacketDecoderConfig`
pub record Config : Type 0 where
  pub enable_defragmentation : Bool
  pub enable_tcp_reassembly : Bool
  pub enable_protocol_detection : Bool
  pub max_l7_stream_bytes : ℕ
  pub flow_table : FlowTableConfig
  pub max_stream_bytes : ℕ

-- `L7StreamState`
pub record L7Stream : Type 0 where
  pub buffer : Bytes
  pub detected : AppProtocol
  pub detection_done : Bool

abbrev pub fresh : L7Stream
fresh = record { buffer = []; detected = AppProtocol.unknown; detection_done = false }

-- `PacketDecoder::Impl`, less its configuration.
pub record Decoder (S : Type 0) : Type 0 where
  pub groups : Groups
  pub flows : Flows
  pub streams : Streams
  pub engine : Engine
  pub l7_streams : List (FlowId × L7Stream)
  pub applications : S

-- What `decode` finds of a packet, besides its layers.
pub record Packet (App : Type 0) : Type 0 where
  pub timestamp : ℕ
  pub dlt : DataLinkType
  pub capture_length : ℕ
  pub layers : Layers
  pub flow_id : FlowId
  pub retransmission : Bool
  pub layer7 : Option App

-- `std::expected<Packet, Error>`
pub data Result (App : Type 0) : Type 0 where
  decoded : Packet App → Result App
  failed : Error → Result App

-- What the detection reads of a transport header.
unfoldable pub seen_by_detection : Layer4 → fdpi.Detect.Payload.Layer4
seen_by_detection (tcp h) = tcp_layer h
seen_by_detection (udp h) = udp_layer h
seen_by_detection _ = other_layer

unfoldable pub or_fresh : Option L7Stream → L7Stream
or_fresh none = fresh
or_fresh (some s) = s

-- The detection on a stream's buffer, until it has found a protocol.
unfoldable pub detect_stream : Engine → FlowId → Tcp → L7Stream → Option (Engine × L7Stream)
detect_stream engine id header s =
    if s.detection_done
    then some (engine, s)
    else elim (detect_flow engine id (tcp_layer header) s.buffer 10) [
      | none ↦ none
      | some (engine', detected) ↦ some (
        engine',
        if is_unknown detected then s else record s { detected = detected; detection_done = true },
      )
    ]

unfoldable pub is_returned : Follow → Bool
is_returned returned = true
is_returned _ = false

-- A packet that is neither in the flow table nor looked into.
abbrev pub plain : {App : Type 0} → ℕ → DataLinkType → Bytes → Layers → Packet App
plain timestamp dlt data' layers = record {
  timestamp = timestamp;
  dlt = dlt;
  capture_length = length data' % 2 ^ 32;
  layers = layers;
  flow_id = build_flow_id layers.layer3 layers.layer4;
  retransmission = false;
  layer7 = none;
}

module _ {App S : Type 0} where
  -- What the decoder of a protocol leaves: the bytes that it used are taken from the buffer.
  unfoldable pub consume :
      Decoder S → FlowId → L7Stream → S × Option (App × ℕ) → Decoder S × Option App
  consume d id s (applications, none) =
      (record d { l7_streams = insert id s d.l7_streams; applications = applications }, none)
  consume d id s (applications, some (app, offset)) = (
    record d {
      l7_streams = insert id (record s { buffer = drop offset s.buffer }) d.l7_streams;
      applications = applications;
    },
    some app,
  )

  -- The same where no buffer is kept.
  unfoldable pub set_layer7 : Decoder S → S × Option (App × ℕ) → Decoder S × Bool × Option App
  set_layer7 d (applications, none) = (record d { applications = applications }, false, none)
  set_layer7 d (applications, some (app, _)) =
      (record d { applications = applications }, false, some app)

module _ {App S : Type 0}
    (decode_l7 : S → Layer4 → FlowId → AppProtocol → Bytes → Option (S × Option (App × ℕ))) where
  -- The stream's protocol is decoded, if it is known.
  unfoldable pub decode_stream :
      Decoder S → Tcp → FlowId → L7Stream → Option (Decoder S × Option App)
  decode_stream d header id s =
      if is_unknown s.detected
      then some (record d { l7_streams = insert id s d.l7_streams }, none)
      else elim (decode_l7 d.applications (tcp header) id s.detected s.buffer) [
        | none ↦ none
        | some r ↦ some (consume d id s r)
      ]

  -- What is done with the bytes that reassembly delivers: a stream with too many is given up.
  unfoldable pub deliver :
      Config → Decoder S → FlowId → Tcp → Bytes → Option (Decoder S × Option App)
  deliver config d id header bytes =
      let s = or_fresh (lookup id d.l7_streams) in
      if ltb config.max_l7_stream_bytes (length s.buffer + length bytes)
      then some (record d { l7_streams = erase id d.l7_streams }, none)
      else elim (detect_stream d.engine id header (record s { buffer = s.buffer ++ bytes })) [
        | none ↦ none
        | some (engine, s') ↦ decode_stream (record d { engine = engine }) header id s'
      ]

  unfoldable pub deliver_some :
      Config → Decoder S → FlowId → Tcp → Option Bytes → Option (Decoder S × Option App)
  deliver_some config d id header none = some (d, none)
  deliver_some config d id header (some []) = some (d, none)
  deliver_some config d id header (some (b ∷ bs)) = deliver config d id header (b ∷ bs)

  -- FIN and RST drop the stream.
  unfoldable pub close_stream : FlowId → Tcp → Decoder S → Decoder S
  close_stream id header d =
      if fin header || rst header then record d { l7_streams = erase id d.l7_streams } else d

  -- The path of a TCP segment with data: reassembly first.
  unfoldable pub inspect_tcp :
      Config → Decoder S → FlowId → Tcp → Bytes → Option (Decoder S × Bool × Option App)
  inspect_tcp config d id header payload =
      let (streams, result) = process config.max_stream_bytes d.streams id header payload in
      elim (deliver_some config (record d { streams = streams }) id header result.data') [
        | none ↦ none
        | some (d', app) ↦ some (close_stream id header d', result.retransmission, app)
      ]

  -- The path of every other packet with data.
  unfoldable pub inspect_payload :
      Decoder S → FlowId → Layer4 → Bytes → Option (Decoder S × Bool × Option App)
  inspect_payload d id layer4 payload =
      elim (detect_flow d.engine id (seen_by_detection layer4) payload 10) [
        | none ↦ none
        | some (engine, detected) ↦
            if is_unknown detected
            then some (record d { engine = engine }, false, none)
            else elim (decode_l7 d.applications layer4 id detected payload) [
              | none ↦ none
              | some r ↦ some (set_layer7 (record d { engine = engine }) r)
            ]
      ]

  unfoldable pub inspect_layer4 :
      Config → Decoder S → FlowId → Layer4 → Bytes → Option (Decoder S × Bool × Option App)
  inspect_layer4 config d id (tcp h) payload =
      if config.enable_tcp_reassembly
      then inspect_tcp config d id h payload
      else inspect_payload d id (tcp h) payload
  inspect_layer4 config d id layer4 payload = inspect_payload d id layer4 payload

  unfoldable pub inspect :
      Config → Decoder S → FlowId → Layer4 → Bytes → Option (Decoder S × Bool × Option App)
  inspect config d id layer4 payload =
      if config.enable_protocol_detection && not (length payload == 0)
      then inspect_layer4 config d id layer4 payload
      else some (d, false, none)

  unfoldable pub look_into :
      Config → Decoder S → Packet App → Follow → Option (Decoder S × Packet App)
  look_into config d packet inspected =
      elim (inspect config d packet.flow_id packet.layers.layer4 packet.layers.payload) [
        | none ↦ none
        | some (d', retransmission, app) ↦
            some (d', record packet { retransmission = retransmission; layer7 = app })
      ]
  look_into config d packet _ = some (d, packet)

  -- The packet is counted in its flow, and its payload looked into unless it is encrypted.
  unfoldable pub follow_up :
      Config → Decoder S → Packet App → Follow → Option (Decoder S × Packet App)
  follow_up config d packet follow =
      if is_returned follow
      then some (d, packet)
      else (elim (update config.flow_table d.flows (record {
        flow_id = packet.flow_id;
        timestamp = packet.timestamp;
        capture_length = packet.capture_length;
      })) [
        | none ↦ none
        | some (flows, _) ↦ look_into config (record d { flows = flows }) packet follow
      ])

  -- `decode`; `none` is a call that does not return: it reads outside a buffer, or calls what the C++ library
  -- leaves undefined, or an exception leaves it, or `decodeL7` does not return.
  -- A fragment stays stored if a later header is bad.
  unfoldable pub decode :
      Config → Decoder S → ℕ → DataLinkType → Bytes → Option (Decoder S × Result App)
  decode config d timestamp dlt data' =
      elim (lower_layers config.enable_defragmentation d.groups dlt data') [
        | fault ↦ none
        | err e _ ↦ some (d, failed e)
        | ok (linked, inner, groups) o ↦ elim (higher_layers linked groups inner data' o) [
          | fault ↦ none
          | err e _ ↦ some (record d { groups = groups }, failed e)
          | ok layers _ ↦
              elim (follow_up config (record d { groups = groups })
                (plain timestamp dlt data' layers) layers.follow) [
                  | none ↦ none
                  | some (d', packet) ↦ some (d', decoded packet)
                ]
        ]
      ]
