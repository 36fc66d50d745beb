-- ===== src/Defrag/Reassembly.antt =====
-- The pieces that `process` of src/defragment.cpp keeps, against the datagram that was cut up.
use fdpi.Defrag.{
  Ended-cases, vector_of, returned, group_eq, group_eq_iff, empty_buffer, fragment_group_eq,
  is_fragment, FragmentGroup, key_of, buffer_of, Groups, note_last, FragmentBuffer, frag_data_len,
  frag_offset, assembled, store, process, finish, values, is_complete,
}
use fdpi.Base.{
  if◌then◌else◌, if_true, ◌&&◌, refl, none, Option, leb, subst, ℕ, ◌+◌, ◌*◌, ◌%◌, ◌^◌, ◌≤◌, ◌<◌,
  ◌≡◌, sym, ap, ◌∙◌, true, some, List, [], ◌∷◌, ◌++◌, length, take, ltb, ◌==◌, arith, append-nil,
  append_assoc, take_of_length-le, Bool-cases, Option-cases, ◌⊎◌, ◌≢◌, ==_iff, inl, inr, if-elim,
}
use fdpi.Base.Assoc.{beq_refl, lookup, insert, lookup-insert, lookup-erase}
use fdpi.Base.Slices.{slice, take-append-slice}
use fdpi.Base.Ordered.{put}
use fdpi.Wire.{Bytes, copy}
use fdpi.Wire.Reads.{copy-eq_some}
use fdpi.Header.Ipv4.{Ipv4}

-- Every piece is the part of `whole` that its offset and length say.
abbrev pub Pieces : Bytes → List (ℕ × Bytes) → Type 0
Pieces whole [] = Unit
Pieces whole ((o, d) ∷ m) =
    (o + length d ≤ length whole) × (d ≡ slice o (length d) whole) × Pieces whole m

-- A buffer of pieces of `whole`, which knows the size of the whole if it knows any.
pub record Holds (whole : Bytes) (buf : FragmentBuffer) : Type 0 where
  pub pieces : Pieces whole buf.fragments
  pub sized : buf.last_fragment_received ≡ true → buf.total_expected_size ≡ length whole

-- The packet is a fragment of `whole`: its payload is the part at its offset, up to the end of
-- `whole` if no more fragments follow.
pub record IsFragmentOf (whole : Bytes) (header : Ipv4) (fragment : Bytes) : Type 0 where
  pub total : header.total_length < 2 ^ 16
  pub offset : header.fragment_offset < 2 ^ 13
  pub headed : header.ihl * 4 ≤ header.total_length
  pub inside : frag_offset header + frag_data_len header ≤ length whole
  pub copied :
      slice (header.ihl * 4) (frag_data_len header) fragment
      ≡ slice (frag_offset header) (frag_data_len header) whole
  pub ends : header.flags % 2 ≡ 0 → frag_offset header + frag_data_len header ≡ length whole

Pieces-put :
    (whole : Bytes) (o : ℕ) (d : Bytes) (m : List (ℕ × Bytes))
    → o + length d ≤ length whole
    → d ≡ slice o (length d) whole
    → Pieces whole m
    → Pieces whole (put o d m)
unfolding put
Pieces-put whole o d [] h e p = (h, e, tt)
Pieces-put whole o d ((j, w) ∷ m) h e p =
    if-elim (Pieces whole) (j == o) (λ _. (h, e, p.2))
      λ _.
        if-elim (Pieces whole) (ltb o j) (λ _. (h, e, p))
          λ _. (p.0, p.1, Pieces-put whole o d m h e p.2)

-- Without a gap, the pieces put together are a prefix of the whole.
values-assembled :
    (whole : Bytes) (k n : ℕ) (m : List (ℕ × Bytes))
    → k ≤ length whole
    → Pieces whole m
    → assembled k m ≡ some n
    → take k whole ++ values m ≡ take n whole
unfolding assembled values
values-assembled whole k n [] h p e =
    append-nil (take k whole) ∙ ap (λ t. take t whole) (ground arith)
values-assembled whole k n ((o, d) ∷ m) h p e = elim (Bool-cases (o == k)) [
  | inl same ↦
      let here : o ≡ k = (==_iff o k).0 same in
      sym (append_assoc (take k whole) d (values m))
      ∙ ap (λ t. t ++ values m)
          (ap (λ t. take k whole ++ t) (p.1 ∙ ap (λ t. slice t (length d) whole) here)
            ∙ take-append-slice k (length d) whole h)
      ∙ values-assembled whole (k + length d) n m (omega arith) p.2 (ground arith)
  | inr gap ↦ absurd (ground arith)
]

values_whole :
    (whole : Bytes) (buf : FragmentBuffer)
    → Holds whole buf
    → is_complete buf ≡ true
    → values buf.fragments ≡ whole
unfolding is_complete
values_whole whole buf v c =
    values-assembled whole 0 (length whole) buf.fragments (omega arith) v.pieces (ground arith)
    ∙ take_of_length-le (length whole) whole (omega arith)

-- What `store` leaves: the buffer as it was, or with the bytes that it copied.
store-cases :
    (buf buf' : FragmentBuffer) (fragment : Bytes) (header : Ipv4)
    → store buf fragment header ≡ returned buf'
    → (buf' ≡ buf)
      ⊎ ((d : Bytes) × (copy fragment (header.ihl * 4) (frag_data_len header) ≡ some d)
          × (buf' ≡ record buf { fragments = put (frag_offset header) d buf.fragments }))
unfolding store vector_of
store-cases buf buf' fragment header e =
    elim (Bool-cases (leb (header.ihl * 4) (length fragment))) [
      | inr short ↦ inl (ground arith)
      | inl long ↦ elim (Option-cases (copy fragment (header.ihl * 4) (frag_data_len header))) [
        | inl bad ↦ absurd (ground arith)
        | inr (d, f) ↦ inr (d, f, ground arith)
      ]
    ]

store-pieces :
    (whole : Bytes) (buf buf' : FragmentBuffer) (fragment : Bytes) (header : Ipv4)
    → Holds whole buf
    → IsFragmentOf whole header fragment
    → store buf fragment header ≡ returned buf'
    → Holds whole buf'
store-pieces whole buf buf' fragment header v g e = elim (store-cases buf buf' fragment header e) [
  | inl same ↦ subst (Holds whole) (sym same) v
  | inr (d, f, same) ↦
      let (copied, len, _) = copy-eq_some _ _ _ d f in
      subst (Holds whole) (sym same) (record {
        pieces =
            Pieces-put whole (frag_offset header) d buf.fragments (rw len g.inside)
              (copied ∙ g.copied ∙ ap (λ n. slice (frag_offset header) n whole) (sym len)) v.pieces;
        sized = v.sized;
      })
]

-- The sum of a fragment's offset and length is in the range of `size_t`.
size_t-sum :
    (whole : Bytes) (header : Ipv4) (fragment : Bytes)
    → IsFragmentOf whole header fragment
    → (frag_offset header + frag_data_len header) % 2 ^ 64
      ≡ frag_offset header + frag_data_len header
unfolding frag_offset frag_data_len
size_t-sum whole header fragment g = omega (arith, g.total, g.headed)

note_last-Holds :
    (whole : Bytes) (buf : FragmentBuffer) (fragment : Bytes) (header : Ipv4)
    → Holds whole buf
    → IsFragmentOf whole header fragment
    → Holds whole (note_last buf header)
unfolding note_last
note_last-Holds whole buf fragment header v g =
    if-elim (Holds whole) (header.flags % 2 == 0 && ltb 0 header.fragment_offset)
      (λ last. record {
        pieces = v.pieces;
        sized = λ _. size_t-sum whole header fragment g ∙ g.ends (ground arith);
      })
      λ _. v

-- What a call leaves of the datagram `whole` under `k`, and of all others.
abbrev Keeps : Bytes → Groups → FragmentGroup → Groups × Option Bytes → Type 0
Keeps whole groups k r =
    Holds whole (buffer_of k r.0)
    × ((d : Bytes) → r.1 ≡ some d → d ≡ whole)
    × ((key : FragmentGroup) → key ≢ k → lookup key r.0 ≡ lookup key groups)

buffer_of-eq :
    (whole : Bytes) (k : FragmentGroup) (groups : Groups) (o : Option FragmentBuffer)
    → lookup k groups ≡ o
    → Holds whole (elim o [ none ↦ empty_buffer | some b ↦ b ])
    → Holds whole (buffer_of k groups)
unfolding buffer_of
buffer_of-eq whole k groups o e h = rw (e, buffer_of) h

empty_buffer-Holds : (whole : Bytes) → Holds whole empty_buffer
empty_buffer-Holds whole = record { pieces = tt; sized = λ h. cc }

finish-Keeps :
    (whole : Bytes) (groups : Groups) (k : FragmentGroup) (buf : FragmentBuffer)
    → Holds whole buf
    → Keeps whole groups k (finish groups k buf)
unfolding finish
finish-Keeps whole groups k buf v =
    if-elim (Keeps whole groups k) (is_complete buf)
      (λ c. (
        buffer_of-eq whole k _ none (lookup-erase k k (insert k buf groups) ∙ self none _)
            (empty_buffer-Holds whole),
        λ d e. let same : values buf.fragments ≡ d = cc in sym same ∙ values_whole whole buf v c,
        λ key ne. ground (
          arith,
          lookup-erase k key (insert k buf groups),
          lookup-insert k key buf groups,
          group_eq_iff k key,
        ),
      ))
      λ _. (
        buffer_of-eq whole k _ (some buf) (lookup-insert k k buf groups ∙ self (some buf) _) v,
        λ d e. absurd (none-ne-some d e),
        λ key ne. ground (arith, lookup-insert k key buf groups, group_eq_iff k key),
      )
  where
    self : (o o' : Option FragmentBuffer) → (if group_eq k k then o else o') ≡ o
    self o o' = if_true (group_eq k k) _ _ (beq_refl k)

    none-ne-some : (d : Bytes) → ◌≡◌ {A = Option Bytes} none (some d) → ⊥
    none-ne-some d e = cc

-- A packet that is a fragment of `whole`, at a buffer that holds fragments of `whole`: what the
-- call leaves holds fragments of `whole` again, a datagram that it returns is `whole`, and the
-- buffers of the other datagrams stay as they are.
pub process-Holds :
    (whole : Bytes) (groups groups' : Groups) (fragment : Bytes) (header : Ipv4)
    (result : Option Bytes)
    → Holds whole (buffer_of (key_of header) groups)
    → IsFragmentOf whole header fragment
    → process groups fragment header ≡ returned (groups', result)
    → Holds whole (buffer_of (key_of header) groups')
      × ((d : Bytes) → result ≡ some d → d ≡ whole)
      × ((key : FragmentGroup) → key ≢ key_of header → lookup key groups' ≡ lookup key groups)
unfolding process
process-Holds whole groups groups' fragment header result v g e =
    elim (Bool-cases (is_fragment header)) [
      | inr no_fragment ↦
          kept (groups, none) (v, λ d h. absurd (none-ne-some d h), λ key ne. refl) (ground arith)
      | inl frag ↦ elim (Ended-cases (store (buffer_of (key_of header) groups) fragment header)) [
        | inr (inl bad) ↦ absurd (ground arith)
        | inr (inr bad) ↦ absurd (ground arith)
        | inl (buf, f) ↦
            kept (finish groups (key_of header) (note_last buf header))
              (finish-Keeps whole groups (key_of header) (note_last buf header) (
                note_last-Holds whole buf fragment header
                  (store-pieces whole _ buf fragment header v g f) g))
              (ground arith)
      ]
    ]
  where
    kept :
        (r : Groups × Option Bytes)
        → Keeps whole groups (key_of header) r
        → r ≡ (groups', result)
        → Keeps whole groups (key_of header) (groups', result)
    kept r h same = subst (Keeps whole groups (key_of header)) same h

    none-ne-some : (d : Bytes) → ◌≡◌ {A = Option Bytes} none (some d) → ⊥
    none-ne-some d h = cc
