-- ===== src/Tests/Applications.antt =====
-- Witnesses of the properties of the application decoders, and tests of where two of them leave their buffer.
use fdpi.Base.{ℕ, zero, suc, ◌+◌, ◌≡◌, refl, true, some, List, [], ◌∷◌, length, arith}
use fdpi.Wire.{Bytes, Outcome, ok, fault, at, be16}
use fdpi.Wire.Bounded.{Bounded}
use fdpi.Wire.Ensures.{Succeeds}
use fdpi.Address.{v4}
use fdpi.Flow.{FlowId}
use fdpi.Decode.Applications.{L7States}
use fdpi.App.Tls.{Tls, new_record, extensions, decode_tls}
use fdpi.App.Tls.Bounds.{decode_tls-Bounded}
use fdpi.App.Tls.Rounds.{extensions-Succeeds}
use fdpi.App.Rdp.{decode_rdp}
use fdpi.App.Rdp.Bounds.{decode_rdp-Bounded}
use fdpi.App.Asn1.{read_asn1_length}
use fdpi.App.Asn1.Lengths.{encode_length, read_asn1_length-encode_length}
use fdpi.App.Dhcp.{DhcpOption, no_options, dhcp_options}
use fdpi.App.Dhcp.Options.{
  encode_options, options_size, told_by, HasCode, dhcp_options-encode_options,
}
use fdpi.App.Tftp.{new_tftp, decode_tftp}
use fdpi.App.Tftp.RoundTrip.{
  IsText, AreOptions, encode_pairs, encode_request, decode_tftp-encode_request,
}
use fdpi.App.Stun.{new_stun, bytes_of, xor_mapped_address}
use fdpi.App.Stun.Xor.{encode_xor_mapped, xor_mapped_address-encode}
use fdpi.App.Netbios.{decode_nbns}
use fdpi.App.Netbios.Bounds.{decode_nbns-Succeeds}

abbrev no_states : L7States
no_states = record { smtp_states = []; pop3_states = [] }

abbrev some_flow : FlowId
some_flow = record {
  src_ip = v4 (10 ∷ 0 ∷ 0 ∷ 1 ∷ []);
  dst_ip = v4 (10 ∷ 0 ∷ 0 ∷ 2 ∷ []);
  src_port = 40000;
  dst_port = 23;
  protocol = 6;
}

-- `IAC WILL ECHO` and a letter.
abbrev telnet_bytes : Bytes
telnet_bytes = 255 ∷ 251 ∷ 1 ∷ 65 ∷ []

-- A ClientHello with one cipher suite.
abbrev hello : Bytes
hello =
    22 ∷ 3 ∷ 1 ∷ 0 ∷ 45 ∷ 1 ∷ 0 ∷ 0 ∷ 41 ∷ 3 ∷ 3 ∷ 7 ∷ 7 ∷ 7 ∷ 7 ∷ 7 ∷ 7 ∷ 7 ∷ 7 ∷ 7 ∷ 7 ∷ 7 ∷ 7 ∷ 7
    ∷ 7 ∷ 7 ∷ 7 ∷ 7 ∷ 7 ∷ 7 ∷ 7 ∷ 7 ∷ 7 ∷ 7 ∷ 7 ∷ 7 ∷ 7 ∷ 7 ∷ 7 ∷ 7 ∷ 7 ∷ 7 ∷ 7 ∷ 0 ∷ 0 ∷ 2 ∷ 19 ∷ 1
    ∷ 1 ∷ 0 ∷ []

one_suite : (s n : ℕ) → at hello 43 ≡ some s → be16 hello (44 + s) ≡ some n → n ≡ 2
unfolding at be16
one_suite zero n h h' = cc
one_suite (suc s) n h h' = absurd cc

decode_tls-Bounded_example : Bounded 0 50 (decode_tls hello 0)
decode_tls-Bounded_example =
    decode_tls-Bounded hello 0 (omega arith)
      λ _ _ s n first second odd. absurd (omega (arith, one_suite s n first second))

-- Three bytes of cipher suites at the end of the buffer: the last of them is read with the byte behind.
abbrev odd_hello : Bytes
odd_hello =
    22 ∷ 3 ∷ 1 ∷ 0 ∷ 44 ∷ 1 ∷ 0 ∷ 0 ∷ 40 ∷ 3 ∷ 3 ∷ 7 ∷ 7 ∷ 7 ∷ 7 ∷ 7 ∷ 7 ∷ 7 ∷ 7 ∷ 7 ∷ 7 ∷ 7 ∷ 7 ∷ 7
    ∷ 7 ∷ 7 ∷ 7 ∷ 7 ∷ 7 ∷ 7 ∷ 7 ∷ 7 ∷ 7 ∷ 7 ∷ 7 ∷ 7 ∷ 7 ∷ 7 ∷ 7 ∷ 7 ∷ 7 ∷ 7 ∷ 7 ∷ 0 ∷ 0 ∷ 3 ∷ 19 ∷ 1
    ∷ 19 ∷ []

odd_hello_reads_outside : decode_tls odd_hello 0 ≡ fault
unfolding decode_tls fdpi.Wire.◌>>=◌ at fdpi.App.Tls.tls_body be16 fdpi.App.Tls.handshake
    fdpi.App.Tls.hello fdpi.App.Tls.client_hello fdpi.Wire.and_then fdpi.App.Tls.cipher_suites_from
odd_hello_reads_outside = refl

-- The extensions of this hello: a supported version.
abbrev offer : Bytes
offer = 0 ∷ 43 ∷ 0 ∷ 3 ∷ 2 ∷ 3 ∷ 4 ∷ []

extensions-Succeeds_example : Succeeds 7 (extensions 8 true offer 0 7 (new_record 22 769) 7)
extensions-Succeeds_example =
    extensions-Succeeds offer 8 true 0 7 (new_record 22 769) 7 (omega arith) (omega arith)
      (omega arith)

-- A connection request of 11 bytes.
abbrev request : Bytes
request = 3 ∷ 0 ∷ 0 ∷ 11 ∷ 6 ∷ 224 ∷ 0 ∷ 0 ∷ 0 ∷ 0 ∷ 0 ∷ []

announced : (n : ℕ) → be16 request 2 ≡ some n → n ≡ 11
unfolding at be16
announced n h = cc

decode_rdp-Bounded_example : Bounded 0 11 (decode_rdp request 0)
decode_rdp-Bounded_example =
    decode_rdp-Bounded request 0 (omega arith)
      λ n h. (omega (arith, announced n h), omega (arith, announced n h))

-- The same with an announced length of 4: the payload is taken to be almost 2 ^ 64 bytes long.
short_request_reads_outside :
    decode_rdp (3 ∷ 0 ∷ 0 ∷ 4 ∷ 6 ∷ 224 ∷ 0 ∷ 0 ∷ 0 ∷ 0 ∷ 0 ∷ []) 0 ≡ fault
unfolding decode_rdp fdpi.Wire.◌>>=◌ at be16 fdpi.App.Rdp.rdp_body fdpi.App.Rdp.rdp_payload
    fdpi.Wire.copy fdpi.App.Rdp.payload_size
short_request_reads_outside = refl

read_asn1_length-encode_length_example :
    read_asn1_length (48 ∷ 129 ∷ 200 ∷ 7 ∷ []) 1 ≡ ok 200 (1 + length (encode_length 200))
unfolding encode_length
read_asn1_length-encode_length_example =
    read_asn1_length-encode_length (48 ∷ 129 ∷ 200 ∷ 7 ∷ []) (7 ∷ []) 1 200 (omega arith) refl

abbrev two_options : List DhcpOption
two_options = record { code = 53; body = 1 ∷ [] } ∷ record { code = 12; body = 104 ∷ 49 ∷ [] } ∷ []

dhcp_options-encode_options_example :
    dhcp_options 9 (0 ∷ 53 ∷ 1 ∷ 1 ∷ 12 ∷ 2 ∷ 104 ∷ 49 ∷ 255 ∷ []) 1 no_options
    ≡ ok (told_by no_options two_options) (1 + options_size two_options)
unfolding encode_options HasCode
dhcp_options-encode_options_example =
    dhcp_options-encode_options (0 ∷ 53 ∷ 1 ∷ 1 ∷ 12 ∷ 2 ∷ 104 ∷ 49 ∷ 255 ∷ []) [] 9 1 no_options
      two_options (omega arith) (refl, refl, (refl, refl, tt)) refl

-- `RRQ` of `f` in the mode `o`, with an option `b` of value `8`.
abbrev read_request : Bytes
read_request = 0 ∷ 1 ∷ 102 ∷ 0 ∷ 111 ∷ 0 ∷ 98 ∷ 0 ∷ 56 ∷ 0 ∷ []

decode_tftp-encode_request_example :
    decode_tftp read_request 0
    ≡ ok
        (record (new_tftp 1) {
          filename = 102 ∷ [];
          mode = 111 ∷ [];
          options = (98 ∷ [], 56 ∷ []) ∷ [];
        })
        10
unfolding encode_request encode_pairs IsText AreOptions
decode_tftp-encode_request_example =
    decode_tftp-encode_request read_request 0 1 (102 ∷ []) (111 ∷ []) ((98 ∷ [], 56 ∷ []) ∷ []) refl
      (refl, tt) (refl, tt) (refl, (refl, tt), (refl, tt), tt) refl

xor_mapped_address-encode_example :
    xor_mapped_address (encode_xor_mapped 3232235777 3478) 0 8 (new_stun 257 12 554869826 [])
    ≡ ok
        (record (new_stun 257 12 554869826 []) {
          mapped_port = some 3478;
          mapped_address = some (v4 (bytes_of 3232235777));
        })
        0
unfolding encode_xor_mapped
xor_mapped_address-encode_example =
    xor_mapped_address-encode (encode_xor_mapped 3232235777 3478) [] 0 8 3232235777 3478
      (new_stun 257 12 554869826 []) (omega arith) (omega arith) refl

-- A query for the name `E`, encoded in two letters.
abbrev name_query : Bytes
name_query = 0 ∷ 1 ∷ 0 ∷ 0 ∷ 0 ∷ 1 ∷ 0 ∷ 0 ∷ 0 ∷ 0 ∷ 0 ∷ 0 ∷ 2 ∷ 69 ∷ 70 ∷ 0 ∷ 0 ∷ 32 ∷ 0 ∷ 1 ∷ []

decode_nbns-Succeeds_example : Succeeds 20 (decode_nbns name_query 0)
decode_nbns-Succeeds_example = decode_nbns-Succeeds name_query 0 (omega arith)
