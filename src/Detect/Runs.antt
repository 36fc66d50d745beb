-- ===== src/Detect/Runs.antt =====
-- Runs of calls of `detectFlow` of src/detection.cpp.
use fdpi.Base.{
  ℕ, ◌+◌, ◌%◌, ◌^◌, ◌≤◌, ◌<◌, ◌≡◌, refl, sym, ap, ◌∙◌, true, false, Option, none, some, List, [],
  ◌∷◌, leb, arith, Bool-cases, ◌⊎◌, inl, inr, if◌then◌else◌,
}
use fdpi.Base.Assoc.{lookup}
use fdpi.Wire.{Bytes}
use fdpi.Flow.{AppProtocol, FlowId, flow_eq, flow_eq_iff, flow_id_eq}
use fdpi.Detect.Payload.{Layer4}
use fdpi.Detect.{
  Engine, FlowDetectionState, undecided, state_of, or_undecided, is_unknown, is_multiplexed,
  conclude, detect_flow,
}
use fdpi.Detect.Decision.{Call, one_call, flow-decided}

-- Calls one after another, with one `maxPackets`; `none` if one of them reads outside its payload.
unfoldable pub run : Engine → ℕ → List Call → Option Engine
run engine max_packets [] = some engine
run engine max_packets (c ∷ calls) =
    elim (detect_flow engine c.flow_id c.layer4 c.payload max_packets) [
      | none ↦ none
      | some (engine', _) ↦ run engine' max_packets calls
    ]

-- How many of the calls are of the flow.
unfoldable pub calls_of : FlowId → List Call → ℕ
calls_of id [] = 0
calls_of id (c ∷ calls) = (if flow_eq c.flow_id id then 1 else 0) + calls_of id calls

run_step :
    (engine engine' : Engine) (n : ℕ) (c : Call) (calls : List Call) (r : AppProtocol)
    → detect_flow engine c.flow_id c.layer4 c.payload n ≡ some (engine', r)
    → run engine n (c ∷ calls) ≡ run engine' n calls
unfolding run
run_step engine engine' n c calls r e = rw (e, run) refl

run_keeps :
    (engine : Engine) (id : FlowId) (n : ℕ) (calls : List Call)
    → (state_of id engine).decided ≡ true
    → (engine' : Engine) × (run engine n calls ≡ some engine')
      × (state_of id engine' ≡ state_of id engine)
unfolding run
run_keeps engine id n [] t = (engine, refl, refl)
run_keeps engine id n (c ∷ calls) t =
    let (engine', a) = one_call engine c n id in
    let (engine'', f, same) = run_keeps engine' id n calls (ap (λ s. s.decided) (a.keeps t) ∙ t) in
    (engine'', run_step engine engine' n c calls a.result a.returned ∙ f, same ∙ a.keeps t)

-- Once a flow is decided, no call of `detectFlow` on any flow changes its state, and where its
-- protocol is not one of STUN, DTLS and RTCP, every later call returns that protocol and changes
-- nothing.
pub run_stays :
    (engine : Engine) (id : FlowId) (n : ℕ) (calls : List Call)
    → (state_of id engine).decided ≡ true
    → is_multiplexed (state_of id engine).result ≡ false
    → (engine' : Engine) × (run engine n calls ≡ some engine')
      × (state_of id engine' ≡ state_of id engine)
      × ((l : Layer4) (p : Bytes)
          → detect_flow engine' id l p n ≡ some (engine', (state_of id engine).result))
run_stays engine id n calls t m =
    let (engine', e, same) = run_keeps engine id n calls t in
    (
      engine',
      e,
      same,
      λ l p.
          let t' : (state_of id engine').decided ≡ true = ap (λ s. s.decided) same ∙ t in
          let m' : is_multiplexed (state_of id engine').result ≡ false =
            ap (λ s. is_multiplexed s.result) same ∙ m in
          let (r, f, g) = flow-decided engine' id l p n t' in
          f ∙ ap (λ x. some (engine', x)) (g m' ∙ ap (λ s. s.result) same),
    )

-- The flow is decided, or has been tested fewer than `n` times, as `seen` counts.
conclude_cases :
    (n : ℕ) (s : FlowDetectionState) (d : AppProtocol)
    → s.packets_seen < n
    → n < 2 ^ 64
    → ((conclude n s d).decided ≡ true)
      ⊎ (((conclude n s d).decided ≡ false)
          × ((conclude n s d).packets_seen ≡ s.packets_seen + 1)
          × (s.packets_seen + 1 < n))
unfolding conclude
conclude_cases n s d h small = elim (Bool-cases (is_unknown d)) [
  | inr known ↦ inl (ground arith)
  | inl none' ↦ elim (Bool-cases (leb n ((s.packets_seen + 1) % 2 ^ 64))) [
    | inl enough ↦ inl (ground arith)
    | inr more ↦ inr (ground arith, ground arith, ground arith)
  ]
]

-- The run decides a flow that is not decided, if `n` of its packets are behind it by the end.
Decides : FlowId → ℕ → List Call → Type 0
Decides id n calls =
    (engine : Engine)
    → (state_of id engine).decided ≡ false
    → (state_of id engine).packets_seen < n
    → n ≤ (state_of id engine).packets_seen + calls_of id calls
    → (engine' : Engine) × (run engine n calls ≡ some engine')
      × ((state_of id engine').decided ≡ true)

module _ (id : FlowId) (n : ℕ) (c : Call) (calls : List Call) (ih : Decides id n calls) where
  count_other : flow_eq c.flow_id id ≡ false → Decides id n (c ∷ calls)
  unfolding calls_of Decides
  count_other differs engine u less enough =
      let (engine', a) = one_call engine c n id in
      let e : state_of id engine' ≡ state_of id engine =
        a.other (λ same. ground (arith, flow_eq_iff c.flow_id id)) in
      let k : (state_of id engine').packets_seen ≡ (state_of id engine).packets_seen =
        ap (λ s. s.packets_seen) e in
      let (engine'', f, t) =
        ih engine' (ap (λ s. s.decided) e ∙ u) (omega (arith, k)) (ground (arith, k)) in
      (engine'', run_step engine engine' n c calls a.result a.returned ∙ f, t)

  count_own : n < 2 ^ 64 → flow_eq c.flow_id id ≡ true → Decides id n (c ∷ calls)
  unfolding calls_of Decides
  count_own small same engine u less enough =
      let (engine', a) = one_call engine c n id in
      let (d, e) = a.own (sym ((flow_eq_iff c.flow_id id).0 same)) u in
      let step = run_step engine engine' n c calls a.result a.returned in
      elim (conclude_cases n (state_of id engine) d less small) [
        | inl t ↦
            let (engine'', f, kept) = run_keeps engine' id n calls (ap (λ s. s.decided) e ∙ t) in
            (engine'', step ∙ f, ap (λ s. s.decided) (kept ∙ e) ∙ t)
        | inr (u', k, more) ↦
            let k' : (state_of id engine').packets_seen ≡ (state_of id engine).packets_seen + 1 =
              ap (λ s. s.packets_seen) e ∙ k in
            let (engine'', f, t) =
              ih engine' (ap (λ s. s.decided) e ∙ u') (omega (arith, k')) (ground (arith, k')) in
            (engine'', step ∙ f, t)
      ]

run_counts : (id : FlowId) (n : ℕ) (calls : List Call) → n < 2 ^ 64 → Decides id n calls
unfolding calls_of Decides
run_counts id n [] small = λ engine u less enough. absurd (omega arith)
run_counts id n (c ∷ calls) small = elim (Bool-cases (flow_eq c.flow_id id)) [
  | inr differs ↦ count_other id n c calls (run_counts id n calls small) differs
  | inl same ↦ count_own id n c calls (run_counts id n calls small) small same
]

-- After `maxPackets` packets of a flow that was not seen before, in any order with the packets of
-- other flows, the calls have all returned and the flow is decided; `maxPackets` is not zero.
pub run-decides :
    (engine : Engine) (id : FlowId) (n : ℕ) (calls : List Call)
    → 0 < n
    → n < 2 ^ 64
    → lookup id engine.flow_states ≡ none
    → n ≤ calls_of id calls
    → (engine' : Engine) × (run engine n calls ≡ some engine')
      × ((state_of id engine').decided ≡ true)
unfolding state_of or_undecided Decides
run-decides engine id n calls pos small new enough =
    let e : state_of id engine ≡ undecided = ap or_undecided new in
    let k : (state_of id engine).packets_seen ≡ 0 = ap (λ s. s.packets_seen) e in
    run_counts id n calls small engine (ap (λ s. s.decided) e) (omega (arith, k)) (omega (arith, k))
