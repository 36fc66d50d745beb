-- ===== src/Tests/Fragments.antt =====
-- The second of two fragments arrives behind the first: a header of 20 bytes with 4 bytes of
-- payload at offset 8.
use fdpi.Base.Assoc.{erase, insert, lookup}
use fdpi.Wire.{copy, Bytes}
use fdpi.Base.Ordered.{put}
use fdpi.Defrag.{
  returned, reads_outside, throws_length_error, vector_of, store, note_last, finish, is_complete,
  assembled, values, FragmentGroup, fragment_group_eq, group_eq, FragmentBuffer, Groups, key_of,
  buffer_of, is_fragment, frag_offset, frag_data_len, process,
}
use fdpi.Base.{
  ℕ, ◌^◌, ◌≤◌, ◌<◌, ◌≡◌, ◌≢◌, ◌↔◌, refl, true, false, Option, none, some, ◌⊎◌, [], ◌∷◌, length,
  arith,
}
use fdpi.Base.Slices.{slice}
use fdpi.Address.{bytes_eq}
use fdpi.Header.Ipv4.{Ipv4}
use fdpi.Defrag.Reassembly.{Holds, IsFragmentOf}
use fdpi.Defrag.Contract.{IsWhole, process_lem}
use fdpi.Defrag.Overread.{process_fails}

abbrev header : ℕ → Ipv4
header total_length = record {
  version = 4;
  ihl = 5;
  dscp = 0;
  ecn = 0;
  total_length = total_length;
  identification = 7;
  flags = 0;
  fragment_offset = 1;
  ttl = 64;
  protocol = 17;
  checksum = 0;
  src_ip = 10 ∷ 0 ∷ 0 ∷ 1 ∷ [];
  dst_ip = 10 ∷ 0 ∷ 0 ∷ 2 ∷ [];
  options = [];
}

abbrev whole : Bytes
whole = 1 ∷ 2 ∷ 3 ∷ 4 ∷ 5 ∷ 6 ∷ 7 ∷ 8 ∷ 9 ∷ 10 ∷ 11 ∷ 12 ∷ []

abbrev packet : Bytes
packet =
    69 ∷ 0 ∷ 0 ∷ 24 ∷ 0 ∷ 7 ∷ 0 ∷ 1 ∷ 64 ∷ 17 ∷ 0 ∷ 0 ∷ 10 ∷ 0 ∷ 0 ∷ 1 ∷ 10 ∷ 0 ∷ 0 ∷ 2 ∷ 9 ∷ 10
    ∷ 11 ∷ 12 ∷ []

abbrev first_part : FragmentBuffer
first_part = record {
  fragments = (0, 1 ∷ 2 ∷ 3 ∷ 4 ∷ 5 ∷ 6 ∷ 7 ∷ 8 ∷ []) ∷ [];
  last_fragment_received = false;
  total_expected_size = 0;
}

abbrev waiting : Groups
waiting = (key_of (header 24), first_part) ∷ []

waiting-Holds : Holds whole (buffer_of (key_of (header 24)) waiting)
unfolding buffer_of lookup key_of group_eq bytes_eq slice
waiting-Holds = record { pieces = (omega arith, refl, tt); sized = λ e. cc }

packet-IsFragmentOf : IsFragmentOf whole (header 24) packet
unfolding frag_offset frag_data_len slice
packet-IsFragmentOf = record {
  total = omega arith;
  offset = omega arith;
  headed = omega arith;
  inside = omega arith;
  copied = refl;
  ends = λ _. refl;
}

packet-IsWhole : IsWhole (header 24) packet
packet-IsWhole = record { captured = omega arith; words = omega arith; small = omega arith }

process_lem_example :
    (groups' : Groups) × (result : Option Bytes) × (process waiting packet (header 24)
      ≡ returned (groups', result))
    × Holds whole (buffer_of (key_of (header 24)) groups')
    × ((result ≡ none) ⊎ (result ≡ some whole))
    × ((key : FragmentGroup) → key ≢ key_of (header 24) → lookup key groups' ≡ lookup key waiting)
process_lem_example =
    process_lem whole waiting packet (header 24) waiting-Holds packet-IsFragmentOf packet-IsWhole

-- The second fragment completes the datagram.
completes : process waiting packet (header 24) ≡ returned ([], some whole)
unfolding process is_fragment store vector_of copy buffer_of lookup insert erase key_of group_eq
    bytes_eq frag_data_len frag_offset put note_last finish is_complete assembled values
completes = refl

header-is_fragment : is_fragment (header 40) ≡ true
unfolding is_fragment
header-is_fragment = refl

packet-length : length packet < 2 ^ 63
packet-length = omega arith

-- The header says 40 bytes, and the buffer has 24.
overread_example :
    ((process [] packet (header 40) ≡ reads_outside)
      ↔ ((20 ≤ length packet) × (length packet < 40)))
    × ((process [] packet (header 40) ≡ throws_length_error) ↔ ((20 ≤ length packet) × (40 < 20)))
overread_example =
    process_fails [] packet (header 40) (omega arith) (omega arith) packet-length header-is_fragment
