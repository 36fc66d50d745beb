-- ===== src/Tests/Packets.antt =====
-- A FIN with data, one without, and a packet that is cut off, through the decoder.
use fdpi.Decode.{Layer4, tcp, no_layer3, no_layer4}
use fdpi.Base.{
  ℕ, ◌+◌, ◌^◌, ◌<◌, ◌≡◌, refl, Bool, true, false, Option, none, some, List, [], ◌∷◌, ◌++◌, length,
  arith,
}
use fdpi.Base.Assoc.{lookup, insert}
use fdpi.Wire.{Bytes, truncated_header}
use fdpi.Address.{IpAddress, v4}
use fdpi.Flow.{AppProtocol, FlowId, flow_id_eq}
use fdpi.Header.Transport.{Tcp, fin, rst, syn}
use fdpi.Link.{DataLinkType, dlt_raw}
use fdpi.Decode.Layers.{Layers, returned, inspected}
use fdpi.Decode.Applications.{Message, L7States, decode_l7}
use fdpi.Decode.Session.{Config, Decoder, Packet, Result, decoded, failed, plain, decode}
use fdpi.Decode.Session.Effects.{decode-failed, decode-no_data}
use fdpi.Decode.Session.Closing.{decode-closes}

abbrev config : Config
config = record {
  enable_defragmentation = true;
  enable_tcp_reassembly = true;
  enable_protocol_detection = true;
  max_l7_stream_bytes = 100;
  flow_table = record { flow_timeout = 60; reassembly_timeout = 30; max_flows = 10 };
  max_stream_bytes = 100;
}

abbrev ip_header : ℕ → Bytes
ip_header total =
    69 ∷ 0 ∷ 0 ∷ total ∷ 0 ∷ 1 ∷ 0 ∷ 0 ∷ 64 ∷ 6 ∷ 0 ∷ 0 ∷ 10 ∷ 0 ∷ 0 ∷ 1 ∷ 10 ∷ 0 ∷ 0 ∷ 2 ∷ []

abbrev tcp_header : Bytes
tcp_header = 4 ∷ 210 ∷ 0 ∷ 80 ∷ 0 ∷ 0 ∷ 0 ∷ 1 ∷ 0 ∷ 0 ∷ 0 ∷ 0 ∷ 80 ∷ 17 ∷ 1 ∷ 0 ∷ 0 ∷ 0 ∷ 0 ∷ 0 ∷ []

abbrev fin_with_data : Bytes
fin_with_data = ip_header 42 ++ (tcp_header ++ (72 ∷ 73 ∷ []))

abbrev fin_alone : Bytes
fin_alone = ip_header 40 ++ tcp_header

abbrev flow : FlowId
flow = record {
  src_ip = v4 (10 ∷ 0 ∷ 0 ∷ 1 ∷ []);
  dst_ip = v4 (10 ∷ 0 ∷ 0 ∷ 2 ∷ []);
  src_port = 1234;
  dst_port = 80;
  protocol = 6;
}

-- The flow has a stream for its protocol, and the reassembler waits for later bytes.
abbrev decoder : Decoder L7States
decoder = record {
  groups = [];
  flows = [];
  streams =
      (flow, record { segments = []; next_expected_seq = 50; syn_seen = true; total_bytes = 0 })
      ∷ [];
  engine = record { flow_states = []; tftp_ports = [] };
  l7_streams =
      (flow, record { buffer = 71 ∷ []; detected = AppProtocol.unknown; detection_done = false })
      ∷ [];
  applications = record { smtp_states = []; pop3_states = [] };
}

-- What a decoder has decoded; only asked where it has.
abbrev state_of : Option (Decoder L7States × Result Message) → Decoder L7States
state_of none = decoder
state_of (some (d, _)) = d

abbrev packet_of : Option (Decoder L7States × Result Message) → Packet Message
packet_of (some (_, decoded p)) = p
packet_of _ = plain 0 dlt_raw [] (record {
  linked = record { ethernet = none; wifi = none; vlan = none; ether_type = 0 };
  layer3 = no_layer3;
  layer4 = no_layer4;
  payload = [];
  groups = [];
  follow = returned;
})

decode-failed_example : decoder ≡ record decoder { groups = [] }
unfolding decode fdpi.Decode.Layers.lower_layers fdpi.Wire.and_then fdpi.Decode.Link.link_layer
    fdpi.Decode.Link.generic_link fdpi.Link.resolve_data_link fdpi.Link.decode_raw_ip
    fdpi.Wire.◌>>=◌ fdpi.Wire.at fdpi.Decode.Link.is_cooked fdpi.Decode.Link.mpls_layer
    fdpi.Decode.Link.linked_of fdpi.Decode.Network.network_layer fdpi.Decode.Network.ipv4_layer
    fdpi.Header.Ipv4.decode_ipv4
decode-failed_example =
    decode-failed (decode_l7 100) config decoder decoder 5 dlt_raw (69 ∷ []) truncated_header refl

abbrev quiet : Option (Decoder L7States × Result Message)
quiet = decode (decode_l7 100) config decoder 5 dlt_raw fin_alone

decode-no_data_example :
    ((state_of quiet).l7_streams ≡ decoder.l7_streams)
    × ((state_of quiet).streams ≡ decoder.streams)
unfolding decode fdpi.Decode.Layers.lower_layers fdpi.Wire.and_then fdpi.Decode.Link.link_layer
    fdpi.Decode.Link.generic_link fdpi.Link.resolve_data_link fdpi.Link.decode_raw_ip
    fdpi.Wire.◌>>=◌ fdpi.Wire.at fdpi.Decode.Link.is_cooked fdpi.Decode.Link.mpls_layer
    fdpi.Decode.Link.linked_of fdpi.Decode.Network.network_layer fdpi.Decode.Network.ipv4_layer
    fdpi.Header.Ipv4.decode_ipv4 fdpi.Header.Ipv4.read_ipv4 fdpi.Wire.be16 fdpi.Wire.be32
    fdpi.Wire.copy fdpi.Defrag.is_fragment fdpi.Decode.Network.ipv4_inner
    fdpi.Decode.Layers.higher_layers fdpi.Decode.Network.gre_layer fdpi.Decode.Layers.from_inner
    fdpi.Decode.Transport.transport_layer fdpi.Header.Transport.decode_tcp
    fdpi.Decode.Layers.upper_layers fdpi.Decode.Layers.is_esp fdpi.Decode.Tunnels.vxlan
    fdpi.Decode.Tunnels.gtp_u fdpi.Decode.Tunnels.is_udp_to fdpi.Decode.Session.follow_up
    fdpi.Decode.Session.is_returned fdpi.Flow.Table.update fdpi.Flow.Table.update_at
    fdpi.Flow.Table.make_room fdpi.Decode.Session.look_into fdpi.Decode.Session.inspect
    fdpi.Base.Assoc.lookup
decode-no_data_example =
    decode-no_data (decode_l7 100) config decoder (state_of quiet) 5 dlt_raw fin_alone
      (packet_of quiet) refl refl

abbrev closing : Option (Decoder L7States × Result Message)
closing = decode (decode_l7 100) config decoder 5 dlt_raw fin_with_data

abbrev fin_header : Tcp
fin_header = record {
  src_port = 1234;
  dst_port = 80;
  seq_num = 1;
  ack_num = 0;
  data_offset = 5;
  flags = 17;
  window = 256;
  checksum = 0;
  urgent_pointer = 0;
  options = [];
}

decode-closes_example : lookup (packet_of closing).flow_id (state_of closing).l7_streams ≡ none
unfolding decode fdpi.Decode.Layers.lower_layers fdpi.Wire.and_then fdpi.Decode.Link.link_layer
    fdpi.Decode.Link.generic_link fdpi.Link.resolve_data_link fdpi.Link.decode_raw_ip
    fdpi.Wire.◌>>=◌ fdpi.Wire.at fdpi.Decode.Link.is_cooked fdpi.Decode.Link.mpls_layer
    fdpi.Decode.Link.linked_of fdpi.Decode.Network.network_layer fdpi.Decode.Network.ipv4_layer
    fdpi.Header.Ipv4.decode_ipv4 fdpi.Header.Ipv4.read_ipv4 fdpi.Wire.be16 fdpi.Wire.be32
    fdpi.Wire.copy fdpi.Defrag.is_fragment fdpi.Decode.Network.ipv4_inner
    fdpi.Decode.Layers.higher_layers fdpi.Decode.Network.gre_layer fdpi.Decode.Layers.from_inner
    fdpi.Decode.Transport.transport_layer fdpi.Header.Transport.decode_tcp
    fdpi.Decode.Layers.upper_layers fdpi.Decode.Layers.is_esp fdpi.Decode.Tunnels.vxlan
    fdpi.Decode.Tunnels.gtp_u fdpi.Decode.Tunnels.is_udp_to fdpi.Decode.Session.follow_up
    fdpi.Decode.Session.is_returned fdpi.Flow.Table.update fdpi.Flow.Table.update_at
    fdpi.Flow.Table.make_room fdpi.Decode.Session.look_into fdpi.Decode.Session.inspect lookup
    insert fdpi.Decode.Session.inspect_layer4 fdpi.Decode.Session.inspect_tcp
    fdpi.Decode.Session.deliver_some fdpi.Decode.Session.close_stream fdpi.Stream.process
    fdpi.Stream.process_stream fdpi.Stream.process_data fdpi.Stream.stream_of fin rst syn
    fdpi.Stream.start fdpi.Flow.flow_eq fdpi.Address.ip_eq fdpi.Decode.build_flow_id
    fdpi.Decode.with_ports fdpi.Decode.with_addresses fdpi.Stream.is_retransmission
    fdpi.Stream.seq_before_or_equal
decode-closes_example =
    decode-closes (decode_l7 100) config decoder (state_of closing) 5 dlt_raw fin_with_data
      (packet_of closing) refl refl refl fin_header refl refl (omega arith)
