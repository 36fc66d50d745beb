-- ===== src/Flow/Table/Expiry.antt =====
-- `FlowTable::cleanupExpired`.
use fdpi.Base.{
  ltb, ◌∙◌, ℕ, ◌+◌, ◌*◌, ◌≡◌, refl, Option, none, some, [], ◌∷◌, length, arith, if◌then◌else◌,
}
use fdpi.Base.Assoc.{lookup}
use fdpi.Base.Assoc.Laws.{AreDistinct}
use fdpi.Flow.{FlowId, flow_eq_iff, flow_id_eq}
use fdpi.Flow.Table.{FlowTableConfig, FlowMetadata, Flows, is_expired, cleanup_expired}

-- The entry that a lookup finds stays unless it is expired.
unfoldable pub unless_expired : FlowTableConfig → ℕ → Option FlowMetadata → Option FlowMetadata
unless_expired config now none = none
unless_expired config now (some meta) = if is_expired config now meta then none else some meta

lookup-cleanup :
    (config : FlowTableConfig) (now : ℕ) (flows : Flows) (id : FlowId)
    → AreDistinct flows
    → lookup id (cleanup_expired config now flows).0 ≡ unless_expired config now (lookup id flows)
unfolding lookup cleanup_expired unless_expired
lookup-cleanup config now [] id d = refl
lookup-cleanup config now ((j, meta) ∷ m) id d = ground (
  arith,
  lookup-cleanup config now m id d.1,
  lookup-cleanup config now m j d.1,
  flow_eq_iff j id,
  d.0,
)

length-cleanup :
    (config : FlowTableConfig) (now : ℕ) (flows : Flows)
    → length (cleanup_expired config now flows).0 + (cleanup_expired config now flows).1
      ≡ length flows
unfolding cleanup_expired
length-cleanup config now [] = omega arith
length-cleanup config now ((j, meta) ∷ m) = ground (arith, length-cleanup config now m)

-- An entry, unless it was last seen more than `limit` before `now`.
unfoldable pub unless_stale : ℕ → ℕ → Option FlowMetadata → Option FlowMetadata
unless_stale limit now none = none
unless_stale limit now (some meta) = if ltb (meta.last_seen + limit) now then none else some meta

expired-stale :
    (config : FlowTableConfig) (now : ℕ) (meta : Option FlowMetadata)
    → unless_expired config now meta ≡ unless_stale (config.flow_timeout * 1000000) now meta
unfolding unless_expired is_expired unless_stale
expired-stale config now none = refl
expired-stale config now (some meta) = ground arith

-- In a table with one entry for a key: exactly the flows that were last seen more than the timeout
-- before `now` go, the others keep their entries, and the result counts the flows that go.
pub cleanup_expired_lem :
    (config : FlowTableConfig) (now : ℕ) (flows : Flows) (id : FlowId)
    → AreDistinct flows
    → let (kept, removed) = cleanup_expired config now flows in
      (lookup id kept ≡ unless_stale (config.flow_timeout * 1000000) now (lookup id flows))
      × (length kept + removed ≡ length flows)
cleanup_expired_lem config now flows id d = (
  lookup-cleanup config now flows id d ∙ expired-stale config now (lookup id flows),
  length-cleanup config now flows,
)
