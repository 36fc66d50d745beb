-- ===== src/Lib.antt =====
-- fdpi, a packet inspection library: a capture's packets are decoded layer by layer, IP fragments
-- are put together, TCP streams are put in order, and flows are counted.
--
-- The parts, and how they meet. The link layer (src/datalink.cpp) finds the network protocol of a
-- packet and moves an offset behind its own header; the decoders of src/protocol take their header
-- at the offset and move it on. A decoded IPv4 header goes to the defragmenter
-- (src/defragment.cpp) with the bytes of the packet, a TCP header to the reassembler
-- (src/reassembly.cpp) with the payload, and the flow id of the packet to the flow table
-- (src/flow_table.cpp). The detection (src/detection.cpp) reads the ports and the payload of each
-- packet, and keeps the protocol of its flow. src/decoder.cpp calls them all for one packet, and
-- src/processor.cpp spreads packets over threads, each with a decoder of its own.
--
-- Base: tests, lists over the native numbers, association lists (for unordered_map) and lists
--   ordered by their keys (for std::map), with their lemmas.
-- Wire: buffers, the error codes of include/fdpi/error.hpp, and the result of a decoder: a value
--   or an error with the offset that the call leaves, or a fault, which is a read outside the
--   buffer. Wire/Bounded has rules for each kind of read, Wire/Ensures for what a decoder gives and
--   for the ways in which it may end.
-- Header: one function for each decoder of a fixed header, with the struct that it fills:
--   ethernet, arp, rarp, ipv4, ipv6, tcp, udp, icmp, gre, gtp, mpls, igmp, esp, homeplug, eapol of
--   src/protocol, and the TLVs of lldp. Header/Bounds and its modules follow their reads and
--   offsets; Header/Encode and its child put UDP, TCP and IPv4 headers on the wire.
-- Link: the ten link types and resolveDataLink; Link/Llc the result and the LLC/SNAP header,
--   Link/Wifi the 802.11 frames.
-- Address, Flow: addresses and flow ids, their equality and order. Address/Text and
--   Address/Ipv6 are src/address.cpp, the text of addresses; Text has the numbers in it. The children
--   of Address/Ipv6 are about the colons, what is printed, and the run of zeros that is left out.
-- Flow/Table: FlowTable. update, lookup (find_flow), cleanupExpired, forEach and size.
-- Stream: TcpReassembler. process_stream is process on the buffer of one flow.
-- Defrag: IpDefragmenter::process.
-- Detect: ProtocolDetectionEngine. Detect/Words the words that start a payload, Detect/Payload
--   what a test reads, Detect/Rules the tests of detectSingle in eight groups, Detect detectFlow;
--   Detect/Decision and Detect/Runs one call and runs of calls.
-- App: the decoders of application protocols in src/protocol. Dns is decodeDns with its names, whose
--   loop may go on for ever. Line and Mail are SMTP and POP3 with the states of their flows. Records
--   has NTP, RTCP, DTLS and BGP, Asn1 asn1, snmp and ldap, Tls tls, Http http and ssdp, Chat ftp,
--   imap, ssh and telnet, Dhcp dhcp and dhcpv6, Tftp tftp, Stun stun, Rdp rdp, Rtmp rtmp,
--   Frames quic, smb and srvloc, Netbios nbns and nbdgm, Mime imf, Ocsp ocsp, and LanSync
--   dblansyncd. A child Bounds of one of them follows its reads and offsets, other children the text
--   or the bytes that it reads back. App/Fuel and App/Tls/Rounds are about the rounds of the loops.
-- Decode: PacketDecoder::decode. Decode/Link, Network, Transport and Tunnels are its layers from the
--   link layer up, Decode/Layers the chain of them, Decode/Session the decoder's state and what
--   becomes of a packet behind its layers, Decode/Applications decodeL7, which sends the payload to
--   the decoder of its protocol, and its children what it returns and `decode` with it. Decode/Bounds
--   and its modules follow reads and offsets.
-- Processor: PacketProcessor. Its functions are the atomic actions of the threads, Processor/Steps
--   the steps that they make in any order, and runs.
-- Tests: the theorems at concrete packets.
--
-- Numbers are natural numbers. Where the source computes in uint16_t, uint32_t or size_t and the
-- result can leave that range, the remainder is written out; sizes of buffers in memory are plain
-- numbers. Bit fields are quotients and remainders. Undefined behaviour is a value: `fault` of a
-- decoder, `none` of a test of the detection, `reads_outside` of the defragmenter where it copies from
-- outside its buffer, `none` of the flow table where it erases from an empty map, `none` of `decode` and
-- of `decodeL7`, which do not go on behind a fault. So is an exception that nobody catches:
-- `throws_length_error` of the defragmenter.
--
-- Fuel: the assembly loop of the reassembler runs on the number of buffered segments, of which each
-- round takes one out; the label loop of MPLS runs on the length of the buffer, of which each round
-- reads four bytes, as do the loops over VLAN tags and LLDP's TLVs on the length of the buffer and
-- one more. The loops over options, attributes, extensions, lines and labels of the application
-- protocols run on the length of the data, of which each round reads a byte or more. The loop over
-- a DNS name has no bound, and takes its fuel as an argument, as do `decodeL7` and a call of it; a loop
-- that has not ended is `none`. A loop of TLS whose fuel is used up is a fault. All other loops are
-- structural.
--
-- Not modelled: the calls of the packet handler and flush of src/processor.cpp, where a submission's
-- test of `started` and its push are two steps; the hashes of the maps; toString of enumerations. A
-- packet's wire length, which is its capture length, is left out. The stubs cleanupExpired of the
-- defragmenter and the reassembler change nothing.
pub mod Base
pub mod Wire
pub mod Header
pub mod Text
pub mod Address
pub mod Flow
pub mod Stream
pub mod Defrag
pub mod Link
pub mod Detect
pub mod App
pub mod Decode
pub mod Processor
mod Tests
