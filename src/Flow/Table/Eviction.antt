-- ===== src/Flow/Table/Eviction.antt =====
-- The choice of the flow that makes room for a new one, in `update` of src/flow_table.cpp.
use fdpi.Base.{
  ◌≤◌, ◌≡◌, refl, sym, ◌∙◌, none, some, ◌⊎◌, inl, inr, [], ◌∷◌, ltb, arith, Bool-cases, if_true,
  if_false, subst,
}
use fdpi.Base.Assoc.{lookup, erase, beq_refl}
use fdpi.Base.Assoc.Laws.{AreDistinct, All}
use fdpi.Flow.{FlowId, flow_eq, flow_eq_iff, flow_id_eq}
use fdpi.Flow.Table.{FlowMetadata, Flows, older, oldest_from, evict}

older-le :
    (o c : FlowId × FlowMetadata)
    → ((older o c).1.last_seen ≤ o.1.last_seen) × ((older o c).1.last_seen ≤ c.1.last_seen)
unfolding older
older-le o c = ground arith

older-cases : (o c : FlowId × FlowMetadata) → (older o c ≡ o) ⊎ (older o c ≡ c)
unfolding older
older-cases o c = elim (Bool-cases (ltb c.1.last_seen o.1.last_seen)) [
  | inl less ↦ inr (if_true _ _ _ less)
  | inr more ↦ inl (if_false _ _ _ more)
]

oldest_from-le :
    (o : FlowId × FlowMetadata) (m : Flows)
    → ((oldest_from o m).1.last_seen ≤ o.1.last_seen)
      × All (λ _ meta. (oldest_from o m).1.last_seen ≤ meta.last_seen) m
unfolding oldest_from
oldest_from-le o [] = (omega arith, tt)
oldest_from-le o (c ∷ m) =
    let (h, a) = oldest_from-le (older o c) m in
    let (l, r) = older-le o c in (omega arith, (omega arith, a))

-- The entry of `o`'s key is `o`.
abbrev pub Holds : Flows → FlowId × FlowMetadata → Type 0
Holds m o = lookup o.0 m ≡ some o.1

Holds-head : (c : FlowId × FlowMetadata) (m : Flows) → Holds (c ∷ m) c
unfolding lookup
Holds-head c m = if_true (flow_eq c.0 c.0) _ _ (beq_refl c.0)

Holds-tail :
    (c o : FlowId × FlowMetadata) (m : Flows) → lookup c.0 m ≡ none → Holds m o → Holds (c ∷ m) o
unfolding lookup
Holds-tail c o m free h = ground (arith, flow_eq_iff c.0 o.0)

oldest_from-member :
    (o : FlowId × FlowMetadata) (m : Flows)
    → AreDistinct m
    → (oldest_from o m ≡ o) ⊎ Holds m (oldest_from o m)
unfolding oldest_from
oldest_from-member o [] d = inl refl
oldest_from-member o (c ∷ m) d = elim (oldest_from-member (older o c) m d.1) [
  | inr h ↦ inr (Holds-tail c _ m d.0 h)
  | inl e ↦ elim (older-cases o c) [
    | inl first ↦ inl (e ∙ first)
    | inr next ↦ inr (subst (Holds (c ∷ m)) (sym (e ∙ next)) (Holds-head c m))
  ]
]

-- What `evict` removes: an entry of the table, seen no later than any other.
pub record IsOldest (flows : Flows) (victim : FlowId × FlowMetadata) : Type 0 where
  pub present : Holds flows victim
  pub least : All (λ _ meta. victim.1.last_seen ≤ meta.last_seen) flows

pub evict-IsOldest :
    (e : FlowId × FlowMetadata) (m : Flows)
    → AreDistinct (e ∷ m)
    → (victim : FlowId × FlowMetadata) × (evict (e ∷ m) ≡ some (erase victim.0 (e ∷ m)))
      × IsOldest (e ∷ m) victim
unfolding evict
evict-IsOldest e m d = (
  oldest_from e (e ∷ m),
  refl,
  record {
    present = elim (oldest_from-member e (e ∷ m) d) [
      | inl same ↦ subst (Holds (e ∷ m)) (sym same) (Holds-head e m)
      | inr h ↦ h
    ];
    least = (oldest_from-le e (e ∷ m)).1;
  },
)
