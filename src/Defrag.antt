-- ===== src/Defrag.antt =====
-- src/defragment.cpp: reassembly of IPv4 fragments. `process` returns the groups that it leaves
-- and its result, unless it reads bytes from outside the buffer that it is given, or the vector
-- that it makes throws. The field `firstSeen` is always zero and is left out.
pub mod Reassembly
pub mod Overread
pub mod Contract
use fdpi.Base.{
  inr, inl, ◌⊎◌, ℕ, ◌+◌, ◌-◌, ◌*◌, ◌%◌, ◌^◌, ◌≡◌, ◌↔◌, refl, Bool, true, false, not, ◌&&◌, Option,
  none, some, List, [], ◌∷◌, ◌++◌, length, ltb, leb, ◌==◌, if◌then◌else◌, arith,
}
use fdpi.Base.Assoc.{Eq, lookup, insert, erase}
use fdpi.Base.Ordered.{put}
use fdpi.Address.{bytes_eq, bytes_eq_iff}
use fdpi.Wire.{Bytes, copy}
use fdpi.Header.Ipv4.{Ipv4}

pub record FragmentGroup : Type 0 where
  pub identification : ℕ
  pub src_ip : Bytes
  pub dst_ip : Bytes

unfoldable pub group_eq : FragmentGroup → FragmentGroup → Bool
group_eq a b =
    a.identification == b.identification && bytes_eq a.src_ip b.src_ip && bytes_eq a.dst_ip b.dst_ip

pub group_eq_iff : (a b : FragmentGroup) → (group_eq a b ≡ true) ↔ (a ≡ b)
unfolding group_eq
group_eq_iff a b = (
  λ h. ground (arith, bytes_eq_iff a.src_ip b.src_ip, bytes_eq_iff a.dst_ip b.dst_ip),
  λ h. ground (arith, bytes_eq_iff a.src_ip b.src_ip, bytes_eq_iff a.dst_ip b.dst_ip),
)

instance abbrev pub fragment_group_eq : Eq FragmentGroup
fragment_group_eq = record { beq = group_eq; beq_iff = group_eq_iff }

pub record FragmentBuffer : Type 0 where
  pub fragments : List (ℕ × Bytes)
  pub last_fragment_received : Bool
  pub total_expected_size : ℕ

abbrev pub empty_buffer : FragmentBuffer
empty_buffer = record { fragments = []; last_fragment_received = false; total_expected_size = 0 }

abbrev pub Groups : Type 0
Groups = List (FragmentGroup × FragmentBuffer)

unfoldable pub key_of : Ipv4 → FragmentGroup
key_of header = record {
  identification = header.identification;
  src_ip = header.src_ip;
  dst_ip = header.dst_ip;
}

-- `mImpl->groups[key]`
unfoldable pub buffer_of : FragmentGroup → Groups → FragmentBuffer
buffer_of key groups = elim (lookup key groups) [ none ↦ empty_buffer | some b ↦ b ]

unfoldable pub is_fragment : Ipv4 → Bool
is_fragment header = not (header.fragment_offset == 0 && header.flags % 2 == 0)

-- `header.totalLength - headerLen`, a `size_t`.
unfoldable pub frag_data_len : Ipv4 → ℕ
frag_data_len header = (header.total_length + 2 ^ 64 - header.ihl * 4) % 2 ^ 64

-- `header.fragmentOffset * 8`, a `uint16_t`.
unfoldable pub frag_offset : Ipv4 → ℕ
frag_offset header = header.fragment_offset * 8 % 2 ^ 16

-- How a call ends: it returns, it reads outside its buffer, which is undefined behaviour, or
-- `std::length_error` leaves it.
pub data Ended {ℓ} (A : Type ℓ) : Type ℓ where
  returned : A → Ended A
  reads_outside : Ended A
  throws_length_error : Ended A

pub Ended-cases {ℓ} :
    {A : Type ℓ} (r : Ended A)
    → ((a : A) × (r ≡ returned a)) ⊎ ((r ≡ reads_outside) ⊎ (r ≡ throws_length_error))
Ended-cases (returned a) = inl (a, refl)
Ended-cases reads_outside = inr (inl refl)
Ended-cases throws_length_error = inr (inr refl)

-- `std::vector(first, first + n)` for the bytes from `o` on: a `last` before `first` makes a
-- length above what a vector can have.
unfoldable pub vector_of : Bytes → ℕ → ℕ → Ended Bytes
vector_of s o n =
    if leb (2 ^ 63) n
    then throws_length_error
    else elim (copy s o n) [ none ↦ reads_outside | some d ↦ returned d ]

unfoldable pub store : FragmentBuffer → Bytes → Ipv4 → Ended FragmentBuffer
store buf fragment header =
    if leb (header.ihl * 4) (length fragment)
    then elim (vector_of fragment (header.ihl * 4) (frag_data_len header)) [
      | returned d ↦ returned (record buf { fragments = put (frag_offset header) d buf.fragments })
      | reads_outside ↦ reads_outside
      | throws_length_error ↦ throws_length_error
    ]
    else returned buf

-- The fragment without MF, behind others, tells the size of the whole.
unfoldable pub note_last : FragmentBuffer → Ipv4 → FragmentBuffer
note_last buf header =
    if header.flags % 2 == 0 && ltb 0 header.fragment_offset
    then record buf {
      last_fragment_received = true;
      total_expected_size = (frag_offset header + frag_data_len header) % 2 ^ 64;
    }
    else buf

-- The loop over the fragments in the order of their offsets: their size, if there is no gap.
unfoldable pub assembled : ℕ → List (ℕ × Bytes) → Option ℕ
assembled n [] = some n
assembled n ((off, d) ∷ m) = if off == n then assembled (n + length d) m else none

unfoldable pub values : List (ℕ × Bytes) → Bytes
values [] = []
values ((_, d) ∷ m) = d ++ values m

unfoldable pub is_complete : FragmentBuffer → Bool
is_complete buf =
    buf.last_fragment_received
    && elim (assembled 0 buf.fragments) [ none ↦ false | some n ↦ n == buf.total_expected_size ]

-- What `process` returns once the fragment is in the buffer.
unfoldable pub finish : Groups → FragmentGroup → FragmentBuffer → Groups × Option Bytes
finish groups key buf =
    if is_complete buf
    then (erase key (insert key buf groups), some (values buf.fragments))
    else (insert key buf groups, none)

unfoldable pub process : Groups → Bytes → Ipv4 → Ended (Groups × Option Bytes)
process groups fragment header =
    if is_fragment header
    then elim (store (buffer_of (key_of header) groups) fragment header) [
      | returned buf ↦ returned (finish groups (key_of header) (note_last buf header))
      | reads_outside ↦ reads_outside
      | throws_length_error ↦ throws_length_error
    ]
    else returned (groups, none)
