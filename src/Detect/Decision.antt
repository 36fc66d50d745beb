-- ===== src/Detect/Decision.antt =====
-- One call of `detectFlow` of src/detection.cpp: its result, and the states that it leaves.
use fdpi.Base.{
  subst, ℕ, ◌≡◌, ◌≢◌, refl, sym, ap, ◌∙◌, true, false, some, List, arith, Bool-cases, inl, inr,
  if◌then◌else◌, if_true, if_false,
}
use fdpi.Base.Assoc.{lookup-insert, beq_refl}
use fdpi.Wire.{Bytes}
use fdpi.Wire.Bounded.{Readable, be16-Readable}
use fdpi.Flow.{AppProtocol, FlowId, flow_eq, flow_eq_iff, flow_id_eq}
use fdpi.Detect.Payload.{Layer4}
use fdpi.Detect.Reads.{detect_single-Readable, when-Readable, reading-Readable}
use fdpi.Detect.{
  Engine, state_of, or_undecided, is_multiplexed, follows_tftp, conclude, settle, detected_in,
  detect_flow,
}

follows-Readable :
    (ports : List ℕ) (id : FlowId) (l : Layer4) (p : Bytes) (detected : AppProtocol)
    → Readable (follows_tftp ports id l p detected)
unfolding follows_tftp
follows-Readable ports id l p detected =
    when-Readable _ _ (λ g. reading-Readable _ _ (be16-Readable p 0 (ground arith)))

detected-Readable :
    (ports : List ℕ) (id : FlowId) (l : Layer4) (p : Bytes) → Readable (detected_in ports id l p)
unfolding detected_in
detected-Readable ports id l p =
    let (d, e) = detect_single-Readable l p in
    let (follows, f) = follows-Readable ports id l p d in
    (if follows then AppProtocol.tftp else d, rw (e, detected_in) (rw f refl))

-- What a call leaves of its flow, in both cases.
module _ (engine : Engine) (id : FlowId) (l : Layer4) (p : Bytes) (max_packets : ℕ) where
  flow-undecided :
      (state_of id engine).decided ≡ false
      → (d : AppProtocol) × (detect_flow engine id l p max_packets
          ≡ some (settle engine id max_packets d))
  unfolding detect_flow
  flow-undecided u =
      let (d, e) = detected-Readable engine.tftp_ports id l p in
      (d, if_false (state_of id engine).decided _ _ u ∙ rw e refl)

  pub flow-decided :
      (state_of id engine).decided ≡ true
      → (r : AppProtocol) × (detect_flow engine id l p max_packets ≡ some (engine, r))
        × (is_multiplexed (state_of id engine).result ≡ false → r ≡ (state_of id engine).result)
  unfolding detect_flow
  flow-decided u =
      let (r, e) = detect_single-Readable l p in
      elim (Bool-cases (is_multiplexed (state_of id engine).result)) [
        | inl m ↦ (
          r,
          if_true (state_of id engine).decided _ _ u ∙ if_true _ _ _ m ∙ rw e refl,
          λ n. ground arith,
        )
        | inr m ↦ (
          (state_of id engine).result,
          if_true (state_of id engine).decided _ _ u ∙ if_false _ _ _ m,
          λ _. refl,
        )
      ]

state_of-settle :
    (engine : Engine) (id : FlowId) (n : ℕ) (d : AppProtocol)
    → state_of id (settle engine id n d).0 ≡ conclude n (state_of id engine) d
unfolding settle state_of or_undecided
state_of-settle engine id n d = ap or_undecided (
    lookup-insert id id (conclude n (state_of id engine) d) engine.flow_states
    ∙ if_true (flow_eq id id) _ _ (beq_refl id))

state_of-settle_other :
    (engine : Engine) (id key : FlowId) (n : ℕ) (d : AppProtocol)
    → key ≢ id
    → state_of key (settle engine id n d).0 ≡ state_of key engine
unfolding settle state_of
state_of-settle_other engine id key n d ne = ap or_undecided (
    ground (
      arith,
      lookup-insert id key (conclude n (state_of id engine) d) engine.flow_states,
      flow_eq_iff id key,
    ))

-- A call of `detectFlow`: the flow, the transport header and the payload.
pub record Call : Type 0 where
  pub flow_id : FlowId
  pub layer4 : Layer4
  pub payload : Bytes

-- One call: whatever it shows, it leaves a decided flow as it was, and every other flow too.
module _ (engine : Engine) (c : Call) (n : ℕ) where
  pub record After (key : FlowId) (engine' : Engine) : Type 0 where
    pub result : AppProtocol
    pub returned : detect_flow engine c.flow_id c.layer4 c.payload n ≡ some (engine', result)
    pub keeps : (state_of key engine).decided ≡ true → state_of key engine' ≡ state_of key engine
    pub other : key ≢ c.flow_id → state_of key engine' ≡ state_of key engine
    pub own :
        key ≡ c.flow_id
        → (state_of key engine).decided ≡ false
        → (d : AppProtocol) × (state_of key engine' ≡ conclude n (state_of key engine) d)

  pub one_call : (key : FlowId) → (engine' : Engine) × After key engine'
  one_call key = elim (Bool-cases (state_of c.flow_id engine).decided) [
    | inl decided ↦
        let (r, e, _) = flow-decided engine c.flow_id c.layer4 c.payload n decided in
        (
          engine,
          record {
            result = r;
            returned = e;
            keeps = λ _. refl;
            other = λ _. refl;
            own = λ same u. absurd (clash same decided u);
          },
        )
    | inr open' ↦
        let (d, e) = flow-undecided engine c.flow_id c.layer4 c.payload n open' in
        (
          (settle engine c.flow_id n d).0,
          record {
            result = (settle engine c.flow_id n d).1;
            returned = e;
            keeps = λ decided.
                state_of-settle_other engine c.flow_id key n d (λ same. clash' same open' decided);
            other = λ ne. state_of-settle_other engine c.flow_id key n d ne;
            own = λ same u. (
              d,
              subst
                  (λ k.
                    state_of k (settle engine c.flow_id n d).0 ≡ conclude n (state_of k engine) d)
                  (sym same) (state_of-settle engine c.flow_id n d),
            );
          },
        )
  ]
    where
      clash :
          key ≡ c.flow_id
          → (state_of c.flow_id engine).decided ≡ true
          → (state_of key engine).decided ≡ false
          → ⊥
      clash same t f = cc

      clash' :
          key ≡ c.flow_id
          → (state_of c.flow_id engine).decided ≡ false
          → (state_of key engine).decided ≡ true
          → ⊥
      clash' same f t = cc
