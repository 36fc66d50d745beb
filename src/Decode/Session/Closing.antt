-- ===== src/Decode/Session/Closing.antt =====
-- FIN and RST in `PacketDecoder::decode` of src/decoder.cpp.
use fdpi.Decode.{esp, igmp, icmpv6, icmp, udp, Layer4, tcp}
use fdpi.Base.{
  if-elim, ◌<◌, subst, ℕ, ◌≡◌, refl, ap, ◌∙◌, true, not, ◌&&◌, ◌||◌, Option, none, some, length,
  ◌==◌, arith, if_true,
}
use fdpi.Base.Assoc.{lookup, lookup-erase, beq_refl}
use fdpi.Wire.{Bytes}
use fdpi.Header.Transport.{Tcp, fin, rst}
use fdpi.Flow.{AppProtocol, FlowId, flow_id_eq, flow_eq}
use fdpi.Flow.Table.{update}
use fdpi.Link.{DataLinkType}
use fdpi.Decode.Layers.{Follow, returned, counted, inspected, lower_layers, higher_layers}
use fdpi.Decode.Session.{
  Config, Decoder, Packet, Result, decoded, is_returned, plain, close_stream, deliver_some,
  inspect_tcp, inspect_layer4, inspect, look_into, follow_up, decode,
}
use fdpi.Decode.Session.Effects.{
  Each, each, Each-of, Each-elim, Each-outcome, Each-any, Each-map, decoded-injective,
}

module _ {App S : Type 0}
    (decode_l7 : S → Layer4 → FlowId → AppProtocol → Bytes → Option (S × Option (App × ℕ)))
    (config : Config) where
  close_stream-lookup :
      (d : Decoder S) (id : FlowId) (header : Tcp)
      → (fin header || rst header) ≡ true
      → lookup id (close_stream decode_l7 id header d).l7_streams ≡ none
  unfolding close_stream
  close_stream-lookup d id header closing =
      ap (λ k. lookup id k.l7_streams) (if_true (fin header || rst header) _ d closing)
      ∙ lookup-erase id id d.l7_streams
      ∙ if_true (flow_eq id id) none _ (beq_refl id)

  -- The flow has no stream, if the packet has data and its header closes the connection.
  abbrev Ends : FlowId → Layer4 → Bytes → Decoder S → Type 0
  Ends id layer4 payload d =
      (header : Tcp)
      → layer4 ≡ tcp header
      → (fin header || rst header) ≡ true
      → 0 < length payload
      → lookup id d.l7_streams ≡ none

  inspect_tcp-Ends :
      (d : Decoder S) (id : FlowId) (header : Tcp) (payload : Bytes)
      → Each
          (λ r. Ends id (tcp header) payload r.0)
          (inspect_tcp decode_l7 config d id header payload)
  unfolding inspect_tcp
  inspect_tcp-Ends d id header payload =
      Each-elim (deliver_some decode_l7 config _ id header _) λ r.
        each λ other same closing _. close_stream-lookup r.0 id header (closing' other same closing)
    where
      closing' :
          (other : Tcp)
          → tcp header ≡ tcp other
          → (fin other || rst other) ≡ true
          → (fin header || rst header) ≡ true
      closing' other same closing = cc

  inspect-Ends :
      (d : Decoder S) (id : FlowId) (layer4 : Layer4) (payload : Bytes)
      → (config.enable_protocol_detection && config.enable_tcp_reassembly) ≡ true
      → Each (λ r. Ends id layer4 payload r.0) (inspect decode_l7 config d id layer4 payload)
  unfolding inspect inspect_layer4
  inspect-Ends d id (tcp header) payload enabled =
      if-elim (Each (λ r. Ends id (tcp header) payload r.0))
        (config.enable_protocol_detection && not (length payload == 0))
        (λ _.
          if-elim (Each (λ r. Ends id (tcp header) payload r.0)) config.enable_tcp_reassembly
            (λ _. inspect_tcp-Ends d id header payload) λ off. absurd (ground arith))
        λ empty. each λ _ _ _ some_data. absurd (ground arith)
  inspect-Ends d id fdpi.Decode.no_layer4 payload enabled = Each-any _ λ _ _ e. absurd cc
  inspect-Ends d id (udp h) payload enabled = Each-any _ λ _ _ e. absurd cc
  inspect-Ends d id (icmp h) payload enabled = Each-any _ λ _ _ e. absurd cc
  inspect-Ends d id (icmpv6 h) payload enabled = Each-any _ λ _ _ e. absurd cc
  inspect-Ends d id (igmp h) payload enabled = Each-any _ λ _ _ e. absurd cc
  inspect-Ends d id (esp h) payload enabled = Each-any _ λ _ _ e. absurd cc

  -- The same for a packet that is looked into.
  abbrev Closes : Decoder S × Packet App → Type 0
  Closes r =
      r.1.layers.follow ≡ inspected → Ends r.1.flow_id r.1.layers.layer4 r.1.layers.payload r.0

  look_into-Closes :
      (d : Decoder S) (packet : Packet App)
      → (config.enable_protocol_detection && config.enable_tcp_reassembly) ≡ true
      → (follow : Follow) → packet.layers.follow ≡ follow
      → Each Closes (look_into decode_l7 config d packet follow)
  unfolding look_into
  look_into-Closes d packet enabled returned e = each λ e'. absurd cc
  look_into-Closes d packet enabled counted e = each λ e'. absurd cc
  look_into-Closes d packet enabled inspected e =
      Each-map (inspect-Ends d packet.flow_id packet.layers.layer4 packet.layers.payload enabled)
        λ a p. each λ _. p

  follow_up-Closes :
      (d : Decoder S) (packet : Packet App)
      → (config.enable_protocol_detection && config.enable_tcp_reassembly) ≡ true
      → Each Closes (follow_up decode_l7 config d packet packet.layers.follow)
  unfolding follow_up is_returned
  follow_up-Closes d packet enabled =
      if-elim (Each Closes) (is_returned packet.layers.follow)
        (λ r. each λ e. absurd (never packet.layers.follow r e))
        λ _.
          Each-elim (update config.flow_table d.flows _) λ r.
            look_into-Closes (record d { flows = r.0 }) packet enabled packet.layers.follow refl
    where
      never : (f : Follow) → is_returned f ≡ true → f ≡ inspected → ⊥
      never returned r e = absurd cc
      never counted r e = absurd cc
      never inspected r e = absurd cc

  -- With detection and reassembly on, a TCP segment with data and with FIN or RST leaves no stream
  -- behind for its flow, whatever the stream held.
  pub decode-closes :
      (d d' : Decoder S) (timestamp : ℕ) (dlt : DataLinkType) (data' : Bytes) (packet : Packet App)
      → (config.enable_protocol_detection && config.enable_tcp_reassembly) ≡ true
      → decode decode_l7 config d timestamp dlt data' ≡ some (d', decoded packet)
      → packet.layers.follow ≡ inspected
      → (header : Tcp) → packet.layers.layer4 ≡ tcp header
      → (fin header || rst header) ≡ true
      → 0 < length packet.layers.payload
      → lookup packet.flow_id d'.l7_streams ≡ none
  unfolding decode
  decode-closes d d' timestamp dlt data' packet enabled h =
      Each-of {P = P} (d', decoded packet) h
        (Each-outcome (lower_layers config.enable_defragmentation d.groups dlt data')
          (λ l o.
            Each-outcome (higher_layers l.0 l.2 l.1 data' o)
              (λ layers _.
                Each-map
                  (follow_up-Closes (record d { groups = l.2 }) (plain timestamp dlt data' layers)
                    enabled)
                  λ r closes. each λ p e. subst (λ p. Closes (r.0, p)) (decoded-injective e) closes)
              λ _ _. each λ _ e. absurd cc)
          λ _ _. each λ _ e. absurd cc)
        packet refl
    where
      P : Decoder S × Result App → Type 0
      P r = (p : Packet App) → r.1 ≡ decoded p → Closes (r.0, p)
