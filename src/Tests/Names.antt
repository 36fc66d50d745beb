-- ===== src/Tests/Names.antt =====
-- Addresses as text, and names in DNS messages.
use fdpi.Base.{false, true, ◌≡◌, refl, some, none, List, [], ◌∷◌, ◌++◌, length, arith}
use fdpi.Wire.{Bytes, Outcome, ok}
use fdpi.Wire.Bounded.{Bounded}
use fdpi.App.Dns.{Dns, decode_name, decode_dns}
use fdpi.App.Dns.Names.{decode_name_itself}
use fdpi.Text.{hexadecimal, hex_digit}
use fdpi.Address.Ipv6.{
  print_ipv6, read_groups, find_zeros, see_group, keep_best, compressed, parse_ipv6,
}
use fdpi.Address.Ipv6.RoundTrip.{parse_ipv6-print_ipv6}
use fdpi.App.Dns.Labels.{encode_name, decode_name-encode_name}
use fdpi.App.Dns.Messages.{decode_dns-Bounded}

-- The labels "ab" and "c" behind a header of two bytes.
abbrev header : Bytes
header = 1 ∷ 2 ∷ []

abbrev behind : Bytes
behind = 7 ∷ []

abbrev labels : List Bytes
labels = (97 ∷ 98 ∷ []) ∷ (99 ∷ []) ∷ []

decode_name_example :
    decode_name 3 (header ++ (encode_name labels ++ behind)) 0 (length header)
    ≡ some (ok (97 ∷ 98 ∷ 46 ∷ 99 ∷ []) 8)
unfolding encode_name fdpi.App.Dns.Labels.join fdpi.App.Dns.dotted
decode_name_example =
    decode_name-encode_name 3 header behind 0 labels
      (omega arith, omega arith, (omega arith, omega arith, tt)) (omega arith)

-- A name at offset 2 that points to itself.
decode_name_itself_example : decode_name 1000 (0 ∷ 0 ∷ 192 ∷ 2 ∷ []) 0 2 ≡ none
unfolding fdpi.Wire.at
decode_name_itself_example =
    decode_name_itself (0 ∷ 0 ∷ 192 ∷ 2 ∷ []) 0 2 192 2 refl refl refl refl 1000

abbrev empty_message : Bytes
empty_message = 0 ∷ 7 ∷ 129 ∷ 131 ∷ 0 ∷ 0 ∷ 0 ∷ 0 ∷ 0 ∷ 0 ∷ 0 ∷ 0 ∷ []

abbrev decoded_message : Dns
decoded_message = record {
  id = 7;
  is_response = true;
  opcode = 0;
  rcode = 3;
  authoritative = false;
  truncated = false;
  recursion_desired = true;
  recursion_available = true;
  questions = [];
  answers = [];
  authorities = [];
  additionals = [];
}

decode_dns_example : Bounded 0 (length empty_message) (ok decoded_message 12)
unfolding decode_dns fdpi.App.Dns.dns_sections fdpi.App.Dns.dns_header fdpi.App.Dns.after
    fdpi.App.Dns.entries fdpi.App.Dns.message fdpi.App.Dns.keep_offset fdpi.Wire.◌>>=◌
    fdpi.Wire.be16 fdpi.Wire.at
decode_dns_example = decode_dns-Bounded 1 empty_message 0 (ok decoded_message 12) (omega arith) refl

abbrev gateway : Bytes
gateway = 0 ∷ 1 ∷ 0 ∷ 0 ∷ 0 ∷ 0 ∷ 0 ∷ 5 ∷ 0 ∷ 0 ∷ 0 ∷ 0 ∷ 0 ∷ 0 ∷ 2 ∷ 1 ∷ []

-- The longer of the two runs of zeros is left out.
gateway_text : print_ipv6 gateway ≡ 49 ∷ 58 ∷ 48 ∷ 58 ∷ 48 ∷ 58 ∷ 53 ∷ 58 ∷ 58 ∷ 50 ∷ 48 ∷ 49 ∷ []
unfolding print_ipv6 read_groups find_zeros see_group keep_best compressed hexadecimal hex_digit
gateway_text = refl

parse_ipv6_example : parse_ipv6 (print_ipv6 gateway) ≡ some gateway
parse_ipv6_example = parse_ipv6-print_ipv6 gateway (omega arith) (
  omega arith,
  (
    omega arith,
    (
      omega arith,
      (
        omega arith,
        (
          omega arith,
          (
            omega arith,
            (
              omega arith,
              (
                omega arith,
                (
                  omega arith,
                  (
                    omega arith,
                    (
                      omega arith,
                      (omega arith, (omega arith, (omega arith, (omega arith, (omega arith, tt))))),
                    ),
                  ),
                ),
              ),
            ),
          ),
        ),
      ),
    ),
  ),
)
