-- ===== src/Tests/Headers.antt =====
-- Headers put on the wire, with three bytes in front and two behind.
use fdpi.Base.{◌+◌, ◌*◌, ◌≡◌, refl, [], ◌∷◌, ◌++◌, length, arith}
use fdpi.Wire.{Bytes, ok}
use fdpi.Header.Ipv4.{Ipv4, decode_ipv4}
use fdpi.Header.Transport.{Tcp, decode_tcp}
use fdpi.Header.Encode.{encode_tcp, IsTcp, decode_tcp-encode}
use fdpi.Header.Encode.Ipv4.{encode_ipv4, IsIpv4, decode_ipv4-encode}

abbrev before : Bytes
before = 1 ∷ 2 ∷ 3 ∷ []

abbrev behind : Bytes
behind = 4 ∷ 5 ∷ []

abbrev connection : Tcp
connection = record {
  src_port = 40000;
  dst_port = 443;
  seq_num = 4294967295;
  ack_num = 0;
  data_offset = 6;
  flags = 2;
  window = 65535;
  checksum = 258;
  urgent_pointer = 0;
  options = 2 ∷ 4 ∷ 5 ∷ 180 ∷ [];
}

connection-IsTcp : IsTcp connection
connection-IsTcp = record { fixed = omega arith; words = omega arith; filled = refl }

tcp_wire_example :
    decode_tcp (before ++ encode_tcp connection behind) (length before)
    ≡ ok connection (length before + connection.data_offset * 4)
tcp_wire_example = decode_tcp-encode before behind connection connection-IsTcp

abbrev network : Ipv4
network = record {
  version = 4;
  ihl = 6;
  dscp = 46;
  ecn = 1;
  total_length = 60;
  identification = 51966;
  flags = 2;
  fragment_offset = 0;
  ttl = 64;
  protocol = 6;
  checksum = 4660;
  src_ip = 10 ∷ 0 ∷ 0 ∷ 1 ∷ [];
  dst_ip = 10 ∷ 0 ∷ 0 ∷ 2 ∷ [];
  options = 148 ∷ 4 ∷ 0 ∷ 0 ∷ [];
}

network-IsIpv4 : IsIpv4 network
network-IsIpv4 = record {
  four = refl;
  fixed = omega arith;
  words = omega arith;
  filled = refl;
  service = omega arith;
  congestion = omega arith;
  three_bits = omega arith;
  offset = omega arith;
  source = refl;
  destination = refl;
}

ipv4_wire_example :
    decode_ipv4 (before ++ encode_ipv4 network behind) (length before)
    ≡ ok network (length before + network.ihl * 4)
ipv4_wire_example = decode_ipv4-encode before behind network network-IsIpv4
