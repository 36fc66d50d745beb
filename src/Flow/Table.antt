-- ===== src/Flow/Table.antt =====
-- src/flow_table.cpp: the table of the flows that were seen. The mutex makes every call one step.
-- Times are microseconds since the epoch; the packet's fields that the table reads are arguments.
pub mod Normal
pub mod Eviction
pub mod Update
pub mod Expiry
use fdpi.Base.{
  ℕ, ◌+◌, ◌-◌, ◌*◌, ◌%◌, ◌^◌, Bool, true, false, ◌&&◌, ◌||◌, Option, none, some, List, [], ◌∷◌,
  length, ltb, leb, ◌==◌, if◌then◌else◌,
}
use fdpi.Base.Assoc.{lookup, insert, erase}
use fdpi.Address.{ip_eq, ip_gt}
use fdpi.Flow.{AppProtocol, FlowId, flow_id_eq}

pub record FlowMetadata : Type 0 where
  pub flow_id : FlowId
  pub first_seen : ℕ
  pub last_seen : ℕ
  pub packet_count : ℕ
  pub byte_count : ℕ
  pub detected_protocol : Option AppProtocol

-- `FlowTableConfig`, its times in seconds; `reassemblyTimeout` is never read.
pub record FlowTableConfig : Type 0 where
  pub flow_timeout : ℕ
  pub reassembly_timeout : ℕ
  pub max_flows : ℕ

abbrev pub Flows : Type 0
Flows = List (FlowId × FlowMetadata)

-- What `update` reads of a packet.
pub record Seen : Type 0 where
  pub flow_id : FlowId
  pub timestamp : ℕ
  pub capture_length : ℕ

unfoldable pub should_swap : FlowId → Bool
should_swap id =
    ip_gt id.src_ip id.dst_ip || ip_eq id.src_ip id.dst_ip && ltb id.dst_port id.src_port

-- The id with the smaller end for its source.
unfoldable pub normalize : FlowId → FlowId
normalize id =
    if should_swap id
    then record id {
      src_ip = id.dst_ip;
      dst_ip = id.src_ip;
      src_port = id.dst_port;
      dst_port = id.src_port;
    }
    else id

-- One round of the search for the flow that was seen longest ago.
unfoldable pub older : FlowId × FlowMetadata → FlowId × FlowMetadata → FlowId × FlowMetadata
older oldest check = if ltb check.1.last_seen oldest.1.last_seen then check else oldest

unfoldable pub oldest_from : FlowId × FlowMetadata → Flows → FlowId × FlowMetadata
oldest_from oldest [] = oldest
oldest_from oldest (check ∷ m) = oldest_from (older oldest check) m

-- `mFlows.erase(oldest)`; of an empty map it is undefined.
unfoldable pub evict : Flows → Option Flows
evict [] = none
evict (e ∷ m) = some (erase (oldest_from e (e ∷ m)).0 (e ∷ m))

unfoldable pub make_room : FlowTableConfig → Flows → Option Flows
make_room config flows = if leb config.max_flows (length flows) then evict flows else some flows

unfoldable pub first_packet : FlowId → ℕ → ℕ → FlowMetadata
first_packet id timestamp capture_length = record {
  flow_id = id;
  first_seen = timestamp;
  last_seen = timestamp;
  packet_count = 1;
  byte_count = capture_length;
  detected_protocol = none;
}

unfoldable pub next_packet : FlowMetadata → ℕ → ℕ → FlowMetadata
next_packet meta timestamp capture_length = record meta {
  last_seen = timestamp;
  packet_count = (meta.packet_count + 1) % 2 ^ 64;
  byte_count = (meta.byte_count + capture_length) % 2 ^ 64;
}

-- `update` once the id is normalized.
unfoldable pub update_at : FlowTableConfig → Flows → FlowId → ℕ → ℕ → Option (Flows × FlowMetadata)
update_at config flows id timestamp capture_length = elim (lookup id flows) [
  | some meta ↦ some (
    insert id (next_packet meta timestamp capture_length) flows,
    next_packet meta timestamp capture_length,
  )
  | none ↦ elim (make_room config flows) [
    | none ↦ none
    | some room ↦ some (
      insert id (first_packet id timestamp capture_length) room,
      first_packet id timestamp capture_length,
    )
  ]
]

-- The table that the call leaves, with the entry that it returns by reference; `none` where the
-- eviction is undefined.
unfoldable pub update : FlowTableConfig → Flows → Seen → Option (Flows × FlowMetadata)
update config flows packet =
    update_at config flows (normalize packet.flow_id) packet.timestamp packet.capture_length

-- `FlowTable::lookup`, which does not normalize the id.
unfoldable pub find_flow : Flows → FlowId → Option FlowMetadata
find_flow flows id = lookup id flows

unfoldable pub is_expired : FlowTableConfig → ℕ → FlowMetadata → Bool
is_expired config now meta =
    ltb meta.last_seen now && ltb (config.flow_timeout * 1000000) (now - meta.last_seen)

-- The loop of `cleanupExpired`: what stays, and how many are removed.
unfoldable pub cleanup_expired : FlowTableConfig → ℕ → Flows → Flows × ℕ
cleanup_expired config now [] = ([], 0)
cleanup_expired config now ((id, meta) ∷ m) =
    let (kept, removed) = cleanup_expired config now m in
    if is_expired config now meta then (kept, removed + 1) else ((id, meta) ∷ kept, removed)

unfoldable pub size : Flows → ℕ
size flows = length flows

-- `forEach` with a visitor that collects what it is given.
unfoldable pub for_each {ℓ} : {A : Type ℓ} → (FlowMetadata → A) → Flows → List A
for_each visitor [] = []
for_each visitor ((_, meta) ∷ m) = visitor meta ∷ for_each visitor m
