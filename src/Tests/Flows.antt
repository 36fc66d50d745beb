-- ===== src/Tests/Flows.antt =====
-- A table for one flow, which a packet of another flow makes full.
use fdpi.Base.{ℕ, ◌+◌, ◌≡◌, ◌≢◌, refl, none, [], ◌∷◌, length, arith}
use fdpi.Base.Assoc.{lookup}
use fdpi.Address.{v4, bytes_eq, bytes_gt, ip_eq, ip_gt}
use fdpi.Flow.{FlowId, flow_id_eq, reverse}
use fdpi.Flow.Table.{
  FlowMetadata, FlowTableConfig, Flows, Seen, should_swap, normalize, update, find_flow,
  cleanup_expired,
}
use fdpi.Flow.Table.Update.{IsValid, Updated, update-Updated, update-reverse, find_flow-none}
use fdpi.Flow.Table.Expiry.{unless_stale, cleanup_expired_lem}

abbrev config : FlowTableConfig
config = record { flow_timeout = 60; reassembly_timeout = 30; max_flows = 1 }

abbrev flow : ℕ → FlowId
flow port = record {
  src_ip = v4 (10 ∷ 0 ∷ 0 ∷ 1 ∷ []);
  dst_ip = v4 (10 ∷ 0 ∷ 0 ∷ 2 ∷ []);
  src_port = port;
  dst_port = 80;
  protocol = 6;
}

abbrev entry_of : ℕ → FlowMetadata
entry_of port = record {
  flow_id = flow port;
  first_seen = 100;
  last_seen = 100;
  packet_count = 1;
  byte_count = 60;
  detected_protocol = none;
}

abbrev table : Flows
table = (flow 1000, entry_of 1000) ∷ []

flow_normal : (port : ℕ) → normalize (flow port) ≡ flow port
unfolding normalize should_swap ip_gt ip_eq bytes_gt bytes_eq
flow_normal port = refl

table-IsValid : IsValid config table
unfolding lookup
table-IsValid = record {
  bounded = omega arith;
  distinct = (refl, tt);
  keyed = ((refl, flow_normal 1000), tt);
}

abbrev packet : Seen
packet = record { flow_id = reverse (flow 2000); timestamp = 200; capture_length = 54 }

Updated_example :
    (flows' : Flows) × (meta' : FlowMetadata) × Updated config table packet flows' meta'
Updated_example = update-Updated config table packet (omega arith) table-IsValid

reverse_example :
    update config table (record packet { flow_id = reverse (reverse (flow 2000)) })
    ≡ update config table packet
reverse_example = update-reverse config table packet

cleanup_example :
    let (kept, removed) = cleanup_expired config 60000101 table in
    (lookup (flow 1000) kept ≡ unless_stale 60000000 60000101 (lookup (flow 1000) table))
    × (length kept + removed ≡ length table)
cleanup_example = cleanup_expired_lem config 60000101 table (flow 1000) (table-IsValid.distinct)

ports_differ : (a b : FlowId) → a ≡ b → a.src_port ≡ b.src_port
ports_differ a b e = cc

reverse_other : normalize (reverse (flow 1000)) ≢ reverse (flow 1000)
unfolding normalize should_swap ip_gt ip_eq bytes_gt bytes_eq reverse
reverse_other e =
    let p : 1000 ≡ 80 = ports_differ (flow 1000) (reverse (flow 1000)) e in omega (arith, p)

find_flow_example : find_flow table (reverse (flow 1000)) ≡ none
find_flow_example = find_flow-none config table (reverse (flow 1000)) table-IsValid reverse_other
