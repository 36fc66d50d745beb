-- ===== src/Stream/Buffer.antt =====
-- What a stream's buffer holds: the loop's end, the byte count, the limit.
use fdpi.Base.{
  inl, inr, ℕ, zero, suc, ◌+◌, ◌≤◌, ◌≡◌, refl, true, none, some, List, [], ◌∷◌, ◌++◌, length, arith,
  Option-cases,
}
use fdpi.Base.Ordered.{find, put, remove, length-remove-lt}
use fdpi.Wire.{Bytes}
use fdpi.Header.Transport.{Tcp}
use fdpi.Stream.{StreamBuffer, take_segment, assemble, store, start, process_data, process_stream}

-- The bytes that the segments hold.
unfoldable pub held : List (ℕ × Bytes) → ℕ
held [] = 0
held ((_, d) ∷ m) = length d + held m

held-put : (k : ℕ) (d : Bytes) (m : List (ℕ × Bytes)) → held (put k d m) ≤ held m + length d
unfolding held put
held-put k d [] = omega arith
held-put k d ((j, w) ∷ m) = ground (arith, held-put k d m)

held-put_new :
    (k : ℕ) (d : Bytes) (m : List (ℕ × Bytes))
    → find k m ≡ none
    → held (put k d m) ≡ held m + length d
unfolding held put find
held-put_new k d [] h = omega arith
held-put_new k d ((j, w) ∷ m) h = ground (arith, held-put_new k d m)

held-remove_le : (k : ℕ) (m : List (ℕ × Bytes)) → held (remove k m) ≤ held m
unfolding held remove
held-remove_le k [] = omega arith
held-remove_le k ((j, w) ∷ m) = ground (arith, held-remove_le k m)

held-remove :
    (k : ℕ) (m : List (ℕ × Bytes)) (d : Bytes)
    → find k m ≡ some d
    → held (remove k m) + length d ≤ held m
unfolding held remove find
held-remove k [] d h = cc
held-remove k ((j, w) ∷ m) d h = ground (arith, held-remove_le k m, held-remove k m d, same)
  where
    same : some w ≡ some d → length w ≡ length d
    same e = cc

-- The loop ends where it should: no segment is left at the expected number.
pub assemble-find :
    (fuel : ℕ) (s : StreamBuffer) (out : Bytes)
    → length s.segments ≤ fuel
    → let (s', _) = assemble fuel s out in find s'.next_expected_seq s'.segments ≡ none
unfolding assemble take_segment find
assemble-find zero s out h = empty s.segments h
  where
    empty : (m : List (ℕ × Bytes)) → length m ≤ 0 → find s.next_expected_seq m ≡ none
    empty [] h' = refl
    empty (_ ∷ _) h' = absurd (omega arith)
assemble-find (suc fuel) s out h = elim (Option-cases (find s.next_expected_seq s.segments)) [
  | inl e ↦ rw (e, assemble) e
  | inr (d, e) ↦
      rw (e, assemble)
        (assemble-find fuel (take_segment s d) (out ++ d)
          (omega (arith, length-remove-lt s.next_expected_seq s.segments e)))
]

-- No more is held than is counted, and no more is counted than the limit allows.
pub record IsBounded (max_stream_bytes : ℕ) (s : StreamBuffer) : Type 0 where
  pub counted : held s.segments ≤ s.total_bytes
  pub limited : s.total_bytes ≤ max_stream_bytes

assemble-IsBounded :
    (limit fuel : ℕ) (s : StreamBuffer) (out : Bytes)
    → IsBounded limit s
    → IsBounded limit (assemble fuel s out).0
unfolding assemble take_segment
assemble-IsBounded limit zero s out b = b
assemble-IsBounded limit (suc fuel) s out b =
    elim (Option-cases (find s.next_expected_seq s.segments)) [
      | inl e ↦ rw (e, assemble) b
      | inr (d, e) ↦
          rw (e, assemble)
            (assemble-IsBounded limit fuel (take_segment s d) (out ++ d) (record {
              counted = omega (arith, held-remove s.next_expected_seq s.segments d e);
              limited = omega arith;
            }))
    ]

store-IsBounded :
    (limit : ℕ) (s : StreamBuffer) (seq : ℕ) (payload : Bytes)
    → s.total_bytes + length payload ≤ limit
    → IsBounded limit s
    → IsBounded limit (store s seq payload).0
unfolding store
store-IsBounded limit s seq payload fits b =
    assemble-IsBounded limit _ _ []
      (record { counted = omega (arith, held-put seq payload s.segments); limited = fits })

-- Every segment, in any order and of any size, leaves at most `max_stream_bytes` bytes held, and
-- counts at least the bytes that are held, so that the count never goes below zero.
pub process_stream-IsBounded :
    (max_stream_bytes : ℕ) (s : StreamBuffer) (header : Tcp) (payload : Bytes)
    → IsBounded max_stream_bytes s
    → IsBounded max_stream_bytes (process_stream max_stream_bytes s header payload).0
unfolding process_stream process_data start
process_stream-IsBounded limit s header payload b = ground (
  arith,
  store-IsBounded limit s header.seq_num payload,
  store-IsBounded limit (record s { syn_seen = true; next_expected_seq = header.seq_num })
      header.seq_num payload,
)
