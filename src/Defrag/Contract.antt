-- ===== src/Defrag/Contract.antt =====
-- `process` of src/defragment.cpp on packets that were captured in full.
use fdpi.Defrag.{returned, FragmentGroup, fragment_group_eq, Groups, key_of, buffer_of, process}
use fdpi.Base.{◌⊎◌, refl, ap, ◌^◌, ◌≤◌, ◌<◌, ◌≡◌, ◌≢◌, Option, none, some, inl, inr, length}
use fdpi.Base.Assoc.{lookup}
use fdpi.Wire.{Bytes}
use fdpi.Header.Ipv4.{Ipv4}
use fdpi.Defrag.Reassembly.{Holds, IsFragmentOf, process-Holds}
use fdpi.Defrag.Overread.{process-captured}

-- The buffer that is handed over has all of the packet that its header announces.
pub record IsWhole (header : Ipv4) (fragment : Bytes) : Type 0 where
  pub captured : header.total_length ≤ length fragment
  pub words : header.ihl < 16
  pub small : length fragment < 2 ^ 63

process-returns :
    (whole : Bytes) (groups : Groups) (fragment : Bytes) (header : Ipv4)
    → IsFragmentOf whole header fragment
    → IsWhole header fragment
    → (r : Groups × Option Bytes) × (process groups fragment header ≡ returned r)
process-returns whole groups fragment header g w =
    process-captured groups fragment header w.small g.headed w.captured

whole_or_none :
    (whole : Bytes) (result : Option Bytes)
    → ((d : Bytes) → result ≡ some d → d ≡ whole)
    → (result ≡ none) ⊎ (result ≡ some whole)
whole_or_none whole none same = inl refl
whole_or_none whole (some d) same = inr (ap some (same d refl))

-- A packet that is a fragment of `whole` and was captured in full, at a buffer that holds
-- fragments of `whole`: the call returns, what it leaves holds fragments of `whole` again, its
-- result is no datagram or `whole`, and the buffers of the other datagrams stay as they are.
pub process_lem :
    (whole : Bytes) (groups : Groups) (fragment : Bytes) (header : Ipv4)
    → Holds whole (buffer_of (key_of header) groups)
    → IsFragmentOf whole header fragment
    → IsWhole header fragment
    → (groups' : Groups) × (result : Option Bytes) × (process groups fragment header
        ≡ returned (groups', result))
      × Holds whole (buffer_of (key_of header) groups')
      × ((result ≡ none) ⊎ (result ≡ some whole))
      × ((key : FragmentGroup) → key ≢ key_of header → lookup key groups' ≡ lookup key groups)
process_lem whole groups fragment header h g w =
    let ((groups', result), e) = process-returns whole groups fragment header g w in
    let (held, same, others) = process-Holds whole groups groups' fragment header result h g e in
    (groups', result, e, held, whole_or_none whole result same, others)
