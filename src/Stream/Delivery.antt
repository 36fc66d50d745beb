-- ===== src/Stream/Delivery.antt =====
-- What a stream delivers, against the bytes that the sender sent: `base` is the sequence number
-- of the first of them, and `sent` is all of them, fewer than 2 ^ 32.
use fdpi.Base.{
  ℕ, zero, suc, ◌+◌, ◌%◌, ◌^◌, ◌≤◌, ◌<◌, ◌≡◌, refl, sym, ap, ◌∙◌, Bool, true, false, none, some, [],
  ◌∷◌, ◌++◌, length, take, ltb, ◌==◌, if◌then◌else◌, arith, Option-cases, inl, inr, append-nil,
  append_assoc, subst, if-elim, if_true, ==_iff,
}
use fdpi.Base.Slices.{slice, take-append-slice}
use fdpi.Base.Ordered.{find, put, remove, find-put, find-remove}
use fdpi.Wire.{Bytes}
use fdpi.Header.Transport.{Tcp, syn}
use fdpi.Stream.{
  StreamBuffer, ReassemblyResult, take_segment, assemble, is_retransmission, delivered, store,
  start, process_data, process_stream,
}

-- The payload is a part of what was sent, and the number is that of its first byte.
pub record IsSegment (base : ℕ) (sent : Bytes) (seq : ℕ) (payload : Bytes) : Type 0 where
  pub position : ℕ
  pub numbered : seq ≡ (base + position) % 2 ^ 32
  pub inside : position + length payload ≤ length sent
  pub copied : payload ≡ slice position (length payload) sent

-- The buffer has delivered the first `m` bytes, and every segment that it holds is a part of
-- what was sent.
pub record Delivers (base : ℕ) (sent : Bytes) (s : StreamBuffer) (m : ℕ) : Type 0 where
  pub started : s.syn_seen ≡ true
  pub expected : s.next_expected_seq ≡ (base + m) % 2 ^ 32
  pub within : m ≤ length sent
  pub buffered : (q : ℕ) (d : Bytes) → find q s.segments ≡ some d → IsSegment base sent q d

-- The bytes of a result.
unfoldable pub output : ReassemblyResult → Bytes
output r = elim (r.data') [ none ↦ [] | some d ↦ d ]

pub output-delivered : (out : Bytes) → output (delivered out) ≡ out
unfolding output delivered
output-delivered [] = refl
output-delivered (b ∷ bs) = refl

pub start_started : (s : StreamBuffer) (seq : ℕ) → s.syn_seen ≡ true → start s seq ≡ s
unfolding start
start_started s seq h = if_true s.syn_seen _ _ h

module _ (base : ℕ) (sent : Bytes) (short : length sent < 2 ^ 32) where
  -- Positions of a stream this short are told apart by their sequence numbers.
  segment_at :
      (m : ℕ) (d : Bytes)
      → m ≤ length sent
      → IsSegment base sent ((base + m) % 2 ^ 32) d
      → (m + length d ≤ length sent) × (d ≡ slice m (length d) sent)
  segment_at m d h g =
      let e : g.position ≡ m = omega arith in
      (omega arith, g.copied ∙ ap (λ k. slice k (length d) sent) e)

  take_segment-Delivers :
      (s : StreamBuffer) (m : ℕ) (d : Bytes)
      → find s.next_expected_seq s.segments ≡ some d
      → Delivers base sent s m
      → Delivers base sent (take_segment s d) (m + length d)
        × (take m sent ++ d ≡ take (m + length d) sent)
  unfolding take_segment
  take_segment-Delivers s m d e v = (
    record {
      started = v.started;
      expected = omega arith;
      within = here.0;
      buffered = λ q d' f. v.buffered q d' (kept q d' f);
    },
    ap (λ t. take m sent ++ t) here.1 ∙ take-append-slice m (length d) sent v.within,
  )
    where
      here : (m + length d ≤ length sent) × (d ≡ slice m (length d) sent)
      here = segment_at m d v.within (rw (sym v.expected) (v.buffered _ d e))

      kept :
          (q : ℕ) (d' : Bytes)
          → find q (remove s.next_expected_seq s.segments) ≡ some d'
          → find q s.segments ≡ some d'
      kept q d' f = ground (arith, find-remove s.next_expected_seq q s.segments)

  assemble-Delivers :
      (fuel : ℕ) (s : StreamBuffer) (m m₀ : ℕ) (out : Bytes)
      → Delivers base sent s m
      → take m₀ sent ++ out ≡ take m sent
      → (m' : ℕ) × Delivers base sent (assemble fuel s out).0 m'
        × (take m₀ sent ++ (assemble fuel s out).1 ≡ take m' sent)
  unfolding assemble
  assemble-Delivers zero s m m₀ out v e = (m, v, e)
  assemble-Delivers (suc fuel) s m m₀ out v e =
      elim (Option-cases (find s.next_expected_seq s.segments)) [
        | inl f ↦ rw (f, assemble) (m, v, e)
        | inr (d, f) ↦
            let (v', e') = take_segment-Delivers s m d f v in
            rw (f, assemble)
              (assemble-Delivers fuel (take_segment s d) (m + length d) m₀ (out ++ d) v'
                (sym (append_assoc _ out d) ∙ ap (λ t. t ++ d) e ∙ e'))
      ]

  store-Delivers :
      (s : StreamBuffer) (m seq : ℕ) (payload : Bytes)
      → Delivers base sent s m
      → IsSegment base sent seq payload
      → (m' : ℕ) × Delivers base sent (store s seq payload).0 m'
        × (take m sent ++ output (store s seq payload).1 ≡ take m' sent)
  unfolding store
  store-Delivers s m seq payload v g = rw output-delivered (
      assemble-Delivers _
        (record s {
          segments = put seq payload s.segments;
          total_bytes = s.total_bytes + length payload;
        })
        m m [] stored (append-nil (take m sent)))
    where
      either :
          (q : ℕ) (d : Bytes) (b : Bool)
          → (seq == q) ≡ b
          → (if b then some payload else find q s.segments) ≡ some d
          → IsSegment base sent q d
      either q d true same f =
          let e : payload ≡ d = cc in
          subst (IsSegment base sent q) e
            (subst (λ k. IsSegment base sent k payload) ((==_iff seq q).0 same) g)
      either q d false other f = v.buffered q d f

      stored :
          Delivers base sent
            (record s {
              segments = put seq payload s.segments;
              total_bytes = s.total_bytes + length payload;
            })
            m
      stored = record {
        started = v.started;
        expected = v.expected;
        within = v.within;
        buffered =
            λ q d f. either q d (seq == q) refl (sym (find-put seq q payload s.segments) ∙ f);
      }

  -- The buffer `r.0` has delivered what was delivered before, and the output of `r.1`.
  abbrev Continues : ℕ → StreamBuffer × ReassemblyResult → Type 0
  Continues m r = (m' : ℕ) × Delivers base sent r.0 m' × (take m sent ++ output r.1 ≡ take m' sent)

  process_data-Delivers :
      (limit : ℕ) (s : StreamBuffer) (m seq : ℕ) (payload : Bytes)
      → Delivers base sent s m
      → IsSegment base sent seq payload
      → Continues m (process_data limit s seq payload)
  unfolding process_data output
  process_data-Delivers limit s m seq payload v g =
      if-elim (Continues m) (ltb limit (s.total_bytes + length payload))
        (λ _. (m, v, append-nil (take m sent)))
        λ _.
          if-elim (Continues m) (is_retransmission s seq payload)
            (λ _. (m, v, append-nil (take m sent))) λ _. store-Delivers s m seq payload v g

  -- Any segment with a part of the stream, also one that was seen before, that overlaps others or
  -- that the limit refuses: what has been delivered, with this call's output, is again a prefix
  -- of what was sent.
  pub process_stream-Delivers :
      (limit : ℕ) (s : StreamBuffer) (m : ℕ) (header : Tcp) (payload : Bytes)
      → syn header ≡ false
      → Delivers base sent s m
      → IsSegment base sent header.seq_num payload
      → (m' : ℕ) × Delivers base sent (process_stream limit s header payload).0 m'
        × (take m sent ++ output (process_stream limit s header payload).1 ≡ take m' sent)
  unfolding process_stream output
  process_stream-Delivers limit s m header payload p v g =
      rw (p, start_started s header.seq_num v.started)
        (if-elim (Continues m) (length payload == 0) (λ _. (m, v, append-nil (take m sent)))
          λ _. process_data-Delivers limit s m header.seq_num payload v g)
