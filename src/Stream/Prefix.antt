-- ===== src/Stream/Prefix.antt =====
-- `process` of src/reassembly.cpp over a whole run of segments.
use fdpi.Base.{
  ℕ, ◌+◌, ◌^◌, ◌<◌, ◌≡◌, refl, sym, ap, ◌∙◌, true, false, Option, none, some, List, [], ◌∷◌, ◌++◌,
  length, take, arith, append-nil, append_assoc,
}
use fdpi.Base.Ordered.{find}
use fdpi.Wire.{Bytes}
use fdpi.Header.Transport.{Tcp, syn}
use fdpi.Stream.{StreamBuffer, fresh, add32, process_stream}
use fdpi.Stream.Delivery.{IsSegment, Delivers, output, process_stream-Delivers}

-- A flow's segments one after another, with all that they deliver.
unfoldable pub run : ℕ → StreamBuffer → List (Tcp × Bytes) → StreamBuffer × Bytes
run limit s [] = (s, [])
run limit s ((header, payload) ∷ rest) =
    let (s', result) = process_stream limit s header payload in
    let (s'', out) = run limit s' rest in (s'', output result ++ out)

-- Every segment is one of the stream's, none is a SYN.
abbrev pub AreSegments : ℕ → Bytes → List (Tcp × Bytes) → Type 0
AreSegments base sent [] = Unit
AreSegments base sent ((header, payload) ∷ rest) =
    (syn header ≡ false) × IsSegment base sent header.seq_num payload × AreSegments base sent rest

run-Delivers :
    (base : ℕ) (sent : Bytes) (limit : ℕ) (s : StreamBuffer) (m : ℕ) (segments : List (Tcp × Bytes))
    → length sent < 2 ^ 32
    → Delivers base sent s m
    → AreSegments base sent segments
    → (m' : ℕ) × (take m sent ++ (run limit s segments).1 ≡ take m' sent)
unfolding run
run-Delivers base sent limit s m [] short v a = (m, append-nil (take m sent))
run-Delivers base sent limit s m ((header, payload) ∷ rest) short v a =
    let (m', v', e) = process_stream-Delivers base sent short limit s m header payload a.0 v a.1 in
    let (m'', e') =
      run-Delivers base sent limit (process_stream limit s header payload).0 m' rest short v' a.2 in
    (
      m'',
      sym (append_assoc (take m sent) _ _)
          ∙ ap (λ t. t ++ (run limit (process_stream limit s header payload).0 rest).1) e
          ∙ e',
    )

-- After a SYN, whatever segments of the stream arrive, in whatever order, as often and as much
-- overlapping as may be: all that `process` delivers, put together, is a prefix of what was sent.
pub run-prefix :
    (isn : ℕ) (sent : Bytes) (limit : ℕ) (handshake : Tcp) (segments : List (Tcp × Bytes))
    → length sent < 2 ^ 32
    → syn handshake ≡ true
    → handshake.seq_num ≡ isn
    → AreSegments (isn + 1) sent segments
    → (m : ℕ) × ((run limit (process_stream limit fresh handshake []).0 segments).1 ≡ take m sent)
unfolding process_stream find
run-prefix isn sent limit handshake segments short p e a =
    run-Delivers (isn + 1) sent limit _ 0 segments short (rw p opened) a
  where
    none-ne-some : {d : Bytes} → ◌≡◌ {A = Option Bytes} none (some d) → ⊥
    none-ne-some f = cc

    opened :
        Delivers
          (isn + 1)
          sent
          (record fresh { syn_seen = true; next_expected_seq = add32 handshake.seq_num 1 })
          0
    opened = record {
      started = refl;
      expected = omega arith;
      within = omega arith;
      buffered = λ q d f. absurd (none-ne-some f);
    }
