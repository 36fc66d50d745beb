-- ===== src/Defrag/Overread.antt =====
-- How `process` of src/defragment.cpp may fail.
use fdpi.Base.{inr, inl, Option, ℕ, ◌+◌, ◌*◌, ◌^◌, ◌≤◌, ◌<◌, ◌≡◌, true, length, arith, ◌↔◌}
use fdpi.Defrag.{
  Ended-cases, returned, throws_length_error, vector_of, reads_outside, FragmentBuffer, Groups,
  key_of, buffer_of, is_fragment, frag_data_len, store, process,
}
use fdpi.Wire.{Bytes}
use fdpi.Wire.Reads.{copy-eq_none}
use fdpi.Header.Ipv4.{Ipv4}

vector_of-eq_reads_outside :
    (s : Bytes) (o n : ℕ) → (vector_of s o n ≡ reads_outside) ↔ ((n < 2 ^ 63) × (length s < o + n))
unfolding vector_of
vector_of-eq_reads_outside s o n =
    (λ e. ground (arith, copy-eq_none s o n), λ h. ground (arith, copy-eq_none s o n))

vector_of-eq_throws : (s : Bytes) (o n : ℕ) → (vector_of s o n ≡ throws_length_error) ↔ (2 ^ 63 ≤ n)
unfolding vector_of
vector_of-eq_throws s o n = (λ e. ground arith, λ h. ground arith)

module _ (buf : FragmentBuffer) (fragment : Bytes) (header : Ipv4) where
  store-eq_reads_outside : (store buf fragment header ≡ reads_outside) ↔ (
      (header.ihl * 4 ≤ length fragment)
      × (frag_data_len header < 2 ^ 63)
      × (length fragment < header.ihl * 4 + frag_data_len header))
  unfolding store
  store-eq_reads_outside = (
    λ e.
        ground (arith, vector_of-eq_reads_outside fragment (header.ihl * 4) (frag_data_len header)),
    λ h.
        ground (arith, vector_of-eq_reads_outside fragment (header.ihl * 4) (frag_data_len header)),
  )

  store-eq_throws :
      (store buf fragment header ≡ throws_length_error)
      ↔ ((header.ihl * 4 ≤ length fragment) × (2 ^ 63 ≤ frag_data_len header))
  unfolding store
  store-eq_throws = (
    λ e. ground (arith, vector_of-eq_throws fragment (header.ihl * 4) (frag_data_len header)),
    λ h. ground (arith, vector_of-eq_throws fragment (header.ihl * 4) (frag_data_len header)),
  )

-- A call on a fragment reads outside the buffer exactly if the buffer holds the header, but is shorter than
-- the header's total length, and throws `std::length_error` exactly if the buffer holds the
-- header, and the total length is shorter than the header.
pub process_fails :
    (groups : Groups) (fragment : Bytes) (header : Ipv4)
    → header.total_length < 2 ^ 16
    → header.ihl < 16
    → length fragment < 2 ^ 63
    → is_fragment header ≡ true
    → ((process groups fragment header ≡ reads_outside)
        ↔ ((header.ihl * 4 ≤ length fragment) × (length fragment < header.total_length)))
      × ((process groups fragment header ≡ throws_length_error)
          ↔ ((header.ihl * 4 ≤ length fragment) × (header.total_length < header.ihl * 4)))
unfolding process frag_data_len
process_fails groups fragment header total ihl size frag =
    let outside = store-eq_reads_outside (buffer_of (key_of header) groups) fragment header in
    let throws = store-eq_throws (buffer_of (key_of header) groups) fragment header in
    ((λ e. ground arith, λ h. ground arith), (λ e. ground arith, λ h. ground arith))

-- A packet that the buffer holds in full is dealt with.
pub process-captured :
    (groups : Groups) (fragment : Bytes) (header : Ipv4)
    → length fragment < 2 ^ 63
    → header.ihl * 4 ≤ header.total_length
    → header.total_length ≤ length fragment
    → (r : Groups × Option Bytes) × (process groups fragment header ≡ returned r)
unfolding process frag_data_len
process-captured groups fragment header small headed whole =
    elim (Ended-cases (process groups fragment header)) [
      | inl r ↦ r
      | inr (inl bad) ↦ absurd (not_outside bad)
      | inr (inr bad) ↦ absurd (not_thrown bad)
    ]
  where
    not_outside : process groups fragment header ≡ reads_outside → ⊥
    not_outside e =
        ground (arith, store-eq_reads_outside (buffer_of (key_of header) groups) fragment header)

    not_thrown : process groups fragment header ≡ throws_length_error → ⊥
    not_thrown e =
        ground (arith, store-eq_throws (buffer_of (key_of header) groups) fragment header)
