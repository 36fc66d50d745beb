-- ===== src/Flow/Table/Update.antt =====
-- `FlowTable::update` of src/flow_table.cpp: the invariant of the table, and the entries by key.
use fdpi.Flow.Table.{
  update_at, find_flow, FlowTableConfig, FlowMetadata, Flows, Seen, normalize, make_room,
  first_packet, next_packet, update,
}
use fdpi.Base.Assoc.Laws.{
  All-lookup, AreDistinct, All, All-insert, All-erase, length-erase, length-insert_new,
  length-insert_old, insert-AreDistinct, erase-AreDistinct,
}
use fdpi.Base.{
  ℕ, ◌≤◌, ◌<◌, ◌≡◌, ◌≢◌, refl, ap, sym, ◌∙◌, Option, none, some, ◌⊎◌, inl, inr, [], ◌∷◌, length,
  leb, arith, Bool-cases, Option-cases, if◌then◌else◌, if_true, if_false,
}
use fdpi.Base.Assoc.{lookup, insert, erase, beq_refl, lookup-insert, lookup-erase}
use fdpi.Flow.{FlowId, reverse, flow_eq, flow_eq_iff, flow_id_eq}
use fdpi.Flow.Table.Normal.{normalize-reverse, normalize_idem}
use fdpi.Flow.Table.Eviction.{IsOldest, evict-IsOldest}

-- A flow's entry stands under its own id, which is normalized.
abbrev pub IsKeyed : FlowId → FlowMetadata → Type 0
IsKeyed id meta = (meta.flow_id ≡ id) × (normalize id ≡ id)

pub record IsValid (config : FlowTableConfig) (flows : Flows) : Type 0 where
  pub bounded : length flows ≤ config.max_flows
  pub distinct : AreDistinct flows
  pub keyed : All IsKeyed flows

-- The room for a new flow: the table itself, or the table without an oldest flow.
make_room-cases :
    (config : FlowTableConfig) (flows : Flows)
    → 0 < config.max_flows
    → AreDistinct flows
    → ((make_room config flows ≡ some flows) × (length flows < config.max_flows))
      ⊎ ((victim : FlowId × FlowMetadata) × (make_room config flows ≡ some (erase victim.0 flows))
          × IsOldest flows victim
          × (config.max_flows ≤ length flows))
unfolding make_room
make_room-cases config [] pos d = inl (ground arith, omega arith)
make_room-cases config (e ∷ m) pos d = elim (Bool-cases (leb config.max_flows (length (e ∷ m)))) [
  | inr room ↦ inl (if_false _ _ _ room, ground arith)
  | inl full ↦
      let (victim, e', oldest) = evict-IsOldest e m d in
      inr (victim, if_true _ _ _ full ∙ e', oldest, ground arith)
]

update_at-old :
    (config : FlowTableConfig) (flows : Flows) (id : FlowId) (t n : ℕ) (meta : FlowMetadata)
    → lookup id flows ≡ some meta
    → update_at config flows id t n
      ≡ some (insert id (next_packet meta t n) flows, next_packet meta t n)
unfolding update_at
update_at-old config flows id t n meta e = rw (e, update_at)

update_at-new :
    (config : FlowTableConfig) (flows : Flows) (id : FlowId) (t n : ℕ) (room : Flows)
    → lookup id flows ≡ none
    → make_room config flows ≡ some room
    → update_at config flows id t n
      ≡ some (insert id (first_packet id t n) room, first_packet id t n)
unfolding update_at
update_at-new config flows id t n room e r = rw (e, r, update_at)

module _ (config : FlowTableConfig) (flows : Flows) (packet : Seen) where
  abbrev pub id : FlowId
  id = normalize packet.flow_id

  abbrev pub new_entry : FlowMetadata
  new_entry = first_packet id packet.timestamp packet.capture_length

  abbrev pub known_entry : FlowMetadata → FlowMetadata
  known_entry meta = next_packet meta packet.timestamp packet.capture_length

  update-old :
      (meta : FlowMetadata)
      → lookup id flows ≡ some meta
      → update config flows packet ≡ some (insert id (known_entry meta) flows, known_entry meta)
  unfolding update
  update-old meta e = update_at-old config flows id _ _ meta e

  update-new :
      (room : Flows)
      → lookup id flows ≡ none
      → make_room config flows ≡ some room
      → update config flows packet ≡ some (insert id (new_entry) room, new_entry)
  unfolding update
  update-new room e r = update_at-new config flows id _ _ room e r

  next-IsValid :
      (meta : FlowMetadata)
      → lookup id flows ≡ some meta
      → IsValid config flows
      → IsValid config (insert id (known_entry meta) flows)
  unfolding next_packet
  next-IsValid meta found v = record {
    bounded = omega (arith, length-insert_old id (known_entry meta) meta flows found, v.bounded);
    distinct = insert-AreDistinct id _ flows v.distinct;
    keyed = All-insert IsKeyed id _ flows (All-lookup IsKeyed id meta flows found v.keyed) v.keyed;
  }

  first-IsValid :
      (room : Flows)
      → lookup id room ≡ none
      → length room < config.max_flows
      → AreDistinct room
      → All IsKeyed room
      → IsValid config (insert id (new_entry) room)
  unfolding first_packet
  first-IsValid room new space d k = record {
    bounded = omega (arith, length-insert_new id (new_entry) room new);
    distinct = insert-AreDistinct id _ room d;
    keyed = All-insert IsKeyed id _ room (refl, normalize_idem packet.flow_id) k;
  }

  -- The flow's entry behind the call.
  unfoldable pub entry : Option FlowMetadata → FlowMetadata
  entry none = new_entry
  entry (some meta) = known_entry meta

  -- What the call does to the other flows: nothing, or the table was full and one that was seen
  -- no later than any other is gone.
  pub data Others (flows' : Flows) : Type 0 where
    kept : ((key : FlowId) → key ≢ id → lookup key flows' ≡ lookup key flows) → Others flows'
    evicted :
        (victim : FlowId × FlowMetadata)
        → lookup id flows ≡ none
        → config.max_flows ≤ length flows
        → IsOldest flows victim
        → ((key : FlowId)
            → key ≢ id
            → lookup key flows' ≡ (if flow_eq victim.0 key then none else lookup key flows))
        → Others flows'

  pub record Updated (flows' : Flows) (meta' : FlowMetadata) : Type 0 where
    pub computed : update config flows packet ≡ some (flows', meta')
    pub valid : IsValid config flows'
    pub returned : meta' ≡ entry (lookup id flows)
    pub stored : lookup id flows' ≡ some meta'
    pub others : Others flows'

  insert_self : (meta : FlowMetadata) (room : Flows) → lookup id (insert id meta room) ≡ some meta
  insert_self meta room = lookup-insert id id meta room ∙ if_true (flow_eq id id) _ _ (beq_refl id)

  insert_other :
      (meta : FlowMetadata) (room : Flows) (key : FlowId)
      → key ≢ id
      → lookup key (insert id meta room) ≡ lookup key room
  insert_other meta room key ne = ground (arith, lookup-insert id key meta room, flow_eq_iff id key)

  known :
      (meta : FlowMetadata)
      → lookup id flows ≡ some meta
      → IsValid config flows
      → Updated (insert id (known_entry meta) flows) (known_entry meta)
  unfolding entry
  known meta found v = record {
    computed = update-old meta found;
    valid = next-IsValid meta found v;
    returned = sym (ap entry found);
    stored = insert_self _ flows;
    others = kept (λ key ne. insert_other _ flows key ne);
  }

  added :
      lookup id flows ≡ none
      → make_room config flows ≡ some flows
      → length flows < config.max_flows
      → IsValid config flows
      → Updated (insert id (new_entry) flows) (new_entry)
  unfolding entry
  added new room space v = record {
    computed = update-new flows new room;
    valid = first-IsValid flows new space v.distinct v.keyed;
    returned = sym (ap entry new);
    stored = insert_self _ flows;
    others = kept (λ key ne. insert_other _ flows key ne);
  }

  replaced :
      (victim : FlowId × FlowMetadata)
      → lookup id flows ≡ none
      → make_room config flows ≡ some (erase victim.0 flows)
      → IsOldest flows victim
      → config.max_flows ≤ length flows
      → IsValid config flows
      → Updated (insert id (new_entry) (erase victim.0 flows)) (new_entry)
  unfolding entry
  replaced victim new room oldest full v = record {
    computed = update-new (erase victim.0 flows) new room;
    valid =
        first-IsValid (erase victim.0 flows) (ground (arith, lookup-erase victim.0 id flows))
          (omega (arith, length-erase victim.0 victim.1 flows v.distinct oldest.present, v.bounded))
          (erase-AreDistinct victim.0 flows v.distinct) (All-erase IsKeyed victim.0 flows v.keyed);
    returned = sym (ap entry new);
    stored = insert_self _ (erase victim.0 flows);
    others =
        evicted victim new full oldest (λ key ne.
          insert_other _ (erase victim.0 flows) key ne ∙ lookup-erase victim.0 key flows);
  }

  -- With room for at least one flow, `update` on a valid table has a result. The table stays valid:
  -- no more flows than `maxFlows`, one entry for a key, every key normalized. The entry that is
  -- returned is stored, and is the flow's entry with one packet more, or a first entry. The other
  -- flows keep their entries, but for one flow if the packet's flow is new and the table full:
  -- that one was seen no later than any other.
  pub update-Updated :
      0 < config.max_flows
      → IsValid config flows
      → (flows' : Flows) × (meta' : FlowMetadata) × Updated flows' meta'
  update-Updated pos v = elim (Option-cases (lookup id flows)) [
    | inr (meta, found) ↦ (_, _, known meta found v)
    | inl new ↦ elim (make_room-cases config flows pos v.distinct) [
      | inl (room, space) ↦ (_, _, added new room space v)
      | inr (victim, room, oldest, full) ↦ (_, _, replaced victim new room oldest full v)
    ]
  ]

-- A packet with the ends of its flow exchanged has the same effect on the table, and the same
-- result.
pub update-reverse :
    (config : FlowTableConfig) (flows : Flows) (packet : Seen)
    → update config flows (record packet { flow_id = reverse packet.flow_id })
      ≡ update config flows packet
unfolding update
update-reverse config flows packet =
    ap (λ id. update_at config flows id packet.timestamp packet.capture_length)
      (normalize-reverse packet.flow_id)

-- A lookup under an id that is not normalized finds nothing in a valid table, also if the flow is
-- there.
pub find_flow-none :
    (config : FlowTableConfig) (flows : Flows) (id : FlowId)
    → IsValid config flows
    → normalize id ≢ id
    → find_flow flows id ≡ none
unfolding find_flow
find_flow-none config flows id v ne = elim (Option-cases (lookup id flows)) [
  | inl absent ↦ absent
  | inr (meta, found) ↦ absurd (ne (All-lookup IsKeyed id meta flows found v.keyed).1)
]
