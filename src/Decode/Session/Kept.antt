-- ===== src/Decode/Session/Kept.antt =====
-- What the steps of `PacketDecoder::decode` of src/decoder.cpp behind the flow table keep.
use fdpi.Decode.{esp, igmp, icmpv6, icmp, Layer4, tcp, udp}
use fdpi.Stream.Buffer.{IsBounded}
use fdpi.Base.{
  ℕ, ◌+◌, ◌≤◌, ◌≡◌, ap, not, ◌&&◌, ◌||◌, Option, none, some, [], ◌∷◌, length, length-append,
  length-drop, drop, ltb, ◌==◌, arith, if-elim,
}
use fdpi.Base.Assoc.{lookup}
use fdpi.Base.Assoc.Laws.{All, All-insert, All-erase}
use fdpi.Wire.{Bytes}
use fdpi.Header.Transport.{Tcp, fin, rst}
use fdpi.Flow.{AppProtocol, FlowId, flow_id_eq}
use fdpi.Flow.Table.{Flows, FlowTableConfig, Seen, update}
use fdpi.Flow.Table.Update.{update-Updated}
use fdpi.Stream.{process}
use fdpi.Detect.{is_unknown}
use fdpi.Decode.Layers.{Follow, returned, counted, inspected}
use fdpi.Decode.Session.Gives.{
  Gives, gives, Gives-call, Gives-elim, Gives-if, detect_flow-Gives, detect_stream-Gives,
  process-IsBounded,
}
use fdpi.Decode.Session.{
  Config, L7Stream, Decoder, consume, set_layer7, Packet, seen_by_detection, or_fresh,
  decode_stream, deliver, deliver_some, close_stream, inspect_tcp, inspect_payload, inspect_layer4,
  inspect, look_into,
}

-- Bytes of a flow at which `decodeL7` does not return.
abbrev pub Unreturned :
    {App S : Type 0}
    → (S → Layer4 → FlowId → AppProtocol → Bytes → Option (S × Option (App × ℕ)))
    → Type 0
Unreturned {S} decode_l7 =
    (states : S) × (transport : Layer4) × (id : FlowId) × (protocol : AppProtocol) × (data' : Bytes)
    × (decode_l7 states transport id protocol data' ≡ none)

-- The flow table is in order, and no stream holds more than its limit allows.
pub record IsValid {S : Type 0} (config : Config) (d : Decoder S) : Type 0 where
  pub flows : fdpi.Flow.Table.Update.IsValid config.flow_table d.flows
  pub streams : All (λ _ s. IsBounded config.max_stream_bytes s) d.streams
  pub l7_streams : All (λ _ s. length s.buffer ≤ config.max_l7_stream_bytes) d.l7_streams

module _ {App S : Type 0} (config : Config) where
  consume-IsValid :
      (d : Decoder S) (id : FlowId) (s : L7Stream) (r : S × Option (App × ℕ))
      → IsValid config d
      → length s.buffer ≤ config.max_l7_stream_bytes
      → IsValid config (consume d id s r).0
  unfolding consume
  consume-IsValid d id s (a, none) v l = record {
    flows = v.flows;
    streams = v.streams;
    l7_streams = All-insert _ id s d.l7_streams l v.l7_streams;
  }
  consume-IsValid d id s (a, some (app, o)) v l = record {
    flows = v.flows;
    streams = v.streams;
    l7_streams =
        All-insert _ id (record s { buffer = drop o s.buffer }) d.l7_streams
          (omega (arith, length-drop o s.buffer, l)) v.l7_streams;
  }

  set_layer7-IsValid :
      (d : Decoder S) (r : S × Option (App × ℕ))
      → IsValid config d
      → IsValid config (set_layer7 d r).0
  unfolding set_layer7
  set_layer7-IsValid d (a, none) v = record {
    flows = v.flows;
    streams = v.streams;
    l7_streams = v.l7_streams;
  }
  set_layer7-IsValid d (a, some _) v = record {
    flows = v.flows;
    streams = v.streams;
    l7_streams = v.l7_streams;
  }

module _ {App S : Type 0}
    (decode_l7 : S → Layer4 → FlowId → AppProtocol → Bytes → Option (S × Option (App × ℕ)))
    (config : Config) where
  l7-Gives :
      (s : S) (transport : Layer4) (id : FlowId) (protocol : AppProtocol) (data' : Bytes)
      → Gives (Unreturned decode_l7) (λ _. Unit) (decode_l7 s transport id protocol data')
  l7-Gives s transport id protocol data' =
      Gives-call (decode_l7 s transport id protocol data')
        λ e. (s, transport, id, protocol, data', e)

  decode_stream-Gives :
      (d : Decoder S) (header : Tcp) (id : FlowId) (s : L7Stream)
      → IsValid config d
      → length s.buffer ≤ config.max_l7_stream_bytes
      → Gives
          (Unreturned decode_l7)
          (λ r. IsValid config r.0)
          (decode_stream decode_l7 d header id s)
  unfolding decode_stream
  decode_stream-Gives d header id s v l =
      Gives-if (is_unknown s.detected)
        (λ _. gives (record {
          flows = v.flows;
          streams = v.streams;
          l7_streams = All-insert _ id s d.l7_streams l v.l7_streams;
        }))
        λ _.
          Gives-elim (l7-Gives d.applications (tcp header) id s.detected s.buffer)
            λ r _. gives (consume-IsValid config d id s r v l)

  deliver-Gives :
      (d : Decoder S) (id : FlowId) (header : Tcp) (bytes : Bytes)
      → IsValid config d
      → Gives
          (Unreturned decode_l7)
          (λ r. IsValid config r.0)
          (deliver decode_l7 config d id header bytes)
  unfolding deliver
  deliver-Gives d id header bytes v =
      Gives-if
        (ltb config.max_l7_stream_bytes
          (length (or_fresh (lookup id d.l7_streams)).buffer + length bytes))
        (λ _. gives (record {
          flows = v.flows;
          streams = v.streams;
          l7_streams = All-erase _ id d.l7_streams v.l7_streams;
        }))
        λ fits. Gives-elim (detect_stream-Gives d.engine id header _) λ r same.
          decode_stream-Gives (record d { engine = r.0 }) header id r.1
            (record { flows = v.flows; streams = v.streams; l7_streams = v.l7_streams })
            (ground (
              arith,
              same,
              length-append (or_fresh (lookup id d.l7_streams)).buffer bytes,
              ap length same,
            ))

  deliver_some-Gives :
      (d : Decoder S) (id : FlowId) (header : Tcp) (bytes : Option Bytes)
      → IsValid config d
      → Gives
          (Unreturned decode_l7)
          (λ r. IsValid config r.0)
          (deliver_some decode_l7 config d id header bytes)
  unfolding deliver_some
  deliver_some-Gives d id header none v = gives v
  deliver_some-Gives d id header (some []) v = gives v
  deliver_some-Gives d id header (some (b ∷ bs)) v = deliver-Gives d id header (b ∷ bs) v

  close_stream-IsValid :
      (d : Decoder S) (id : FlowId) (header : Tcp)
      → IsValid config d
      → IsValid config (close_stream decode_l7 id header d)
  unfolding close_stream
  close_stream-IsValid d id header v =
      if-elim (IsValid config) (fin header || rst header)
        (λ _. record {
          flows = v.flows;
          streams = v.streams;
          l7_streams = All-erase _ id d.l7_streams v.l7_streams;
        })
        λ _. v

  inspect_tcp-Gives :
      (d : Decoder S) (id : FlowId) (header : Tcp) (payload : Bytes)
      → IsValid config d
      → Gives
          (Unreturned decode_l7)
          (λ r. IsValid config r.0)
          (inspect_tcp decode_l7 config d id header payload)
  unfolding inspect_tcp
  inspect_tcp-Gives d id header payload v =
      let r = process config.max_stream_bytes d.streams id header payload in
      Gives-elim
        (deliver_some-Gives (record d { streams = r.0 }) id header r.1.data'
          (record {
            flows = v.flows;
            streams =
                process-IsBounded config.max_stream_bytes d.streams id header payload v.streams;
            l7_streams = v.l7_streams;
          }))
        λ a w. gives (close_stream-IsValid a.0 id header w)

  inspect_payload-Gives :
      (d : Decoder S) (id : FlowId) (layer4 : Layer4) (payload : Bytes)
      → IsValid config d
      → Gives
          (Unreturned decode_l7)
          (λ r. IsValid config r.0)
          (inspect_payload decode_l7 d id layer4 payload)
  unfolding inspect_payload
  inspect_payload-Gives d id layer4 payload v =
      Gives-elim (detect_flow-Gives d.engine id (seen_by_detection layer4) payload 10) λ r _.
        let w : IsValid config (record d { engine = r.0 }) = record {
          flows = v.flows;
          streams = v.streams;
          l7_streams = v.l7_streams;
        } in
        Gives-if (is_unknown r.1) (λ _. gives w)
          λ _.
            Gives-elim (l7-Gives d.applications layer4 id r.1 payload)
              λ a _. gives (set_layer7-IsValid config (record d { engine = r.0 }) a w)

  inspect_layer4-Gives :
      (d : Decoder S) (id : FlowId) (layer4 : Layer4) (payload : Bytes)
      → IsValid config d
      → Gives
          (Unreturned decode_l7)
          (λ r. IsValid config r.0)
          (inspect_layer4 decode_l7 config d id layer4 payload)
  unfolding inspect_layer4
  inspect_layer4-Gives d id (tcp h) payload v =
      Gives-if config.enable_tcp_reassembly (λ _. inspect_tcp-Gives d id h payload v)
        λ _. inspect_payload-Gives d id (tcp h) payload v
  inspect_layer4-Gives d id fdpi.Decode.no_layer4 payload v = inspect_payload-Gives d id _ payload v
  inspect_layer4-Gives d id (udp h) payload v = inspect_payload-Gives d id _ payload v
  inspect_layer4-Gives d id (icmp h) payload v = inspect_payload-Gives d id _ payload v
  inspect_layer4-Gives d id (icmpv6 h) payload v = inspect_payload-Gives d id _ payload v
  inspect_layer4-Gives d id (igmp h) payload v = inspect_payload-Gives d id _ payload v
  inspect_layer4-Gives d id (esp h) payload v = inspect_payload-Gives d id _ payload v

  inspect-Gives :
      (d : Decoder S) (id : FlowId) (layer4 : Layer4) (payload : Bytes)
      → IsValid config d
      → Gives
          (Unreturned decode_l7)
          (λ r. IsValid config r.0)
          (inspect decode_l7 config d id layer4 payload)
  unfolding inspect
  inspect-Gives d id layer4 payload v =
      Gives-if (config.enable_protocol_detection && not (length payload == 0))
        (λ _. inspect_layer4-Gives d id layer4 payload v) λ _. gives v

  pub look_into-Gives :
      (d : Decoder S) (packet : Packet App) (follow : Follow)
      → IsValid config d
      → Gives
          (Unreturned decode_l7)
          (λ r. IsValid config r.0)
          (look_into decode_l7 config d packet follow)
  unfolding look_into
  look_into-Gives d packet returned v = gives v
  look_into-Gives d packet counted v = gives v
  look_into-Gives d packet inspected v =
      Gives-elim (inspect-Gives d packet.flow_id packet.layers.layer4 packet.layers.payload v)
        λ _ w. gives w
