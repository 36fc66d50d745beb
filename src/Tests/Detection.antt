-- ===== src/Tests/Detection.antt =====
-- Flows of the detection: one that shows nothing, and one that was found to be HTTP.
use fdpi.Base.{ℕ, ◌≡◌, refl, true, false, none, some, List, [], ◌∷◌, arith}
use fdpi.Base.Assoc.{lookup}
use fdpi.Wire.{Bytes}
use fdpi.Wire.Bounded.{Readable}
use fdpi.Address.{v4, bytes_eq, ip_eq}
use fdpi.Flow.{AppProtocol, FlowId, flow_id_eq, flow_eq}
use fdpi.Detect.{Engine, state_of, or_undecided, is_multiplexed, detect_flow}
use fdpi.Detect.Rules.{detect_single}
use fdpi.Detect.Payload.{Layer4, udp_layer}
use fdpi.Detect.Reads.{detect_single-Readable}
use fdpi.Detect.Decision.{Call}
use fdpi.Detect.Runs.{run, calls_of, run_stays, run-decides}

abbrev flow : ℕ → FlowId
flow port = record {
  src_ip = v4 (10 ∷ 0 ∷ 0 ∷ 1 ∷ []);
  dst_ip = v4 (10 ∷ 0 ∷ 0 ∷ 2 ∷ []);
  src_port = port;
  dst_port = 4000;
  protocol = 17;
}

abbrev transport : ℕ → Layer4
transport port = udp_layer (record { src_port = port; dst_port = 4000; len = 12; checksum = 0 })

abbrev short_payload : Bytes
short_payload = 22 ∷ 254 ∷ 253 ∷ 0 ∷ []

abbrev call : ℕ → Call
call port = record { flow_id = flow port; layer4 = transport port; payload = short_payload }

abbrev calls : List Call
calls = call 1000 ∷ call 2000 ∷ call 1000 ∷ []

-- A payload that begins as DTLS does, and is too short for it.
detect_single_example : Readable (detect_single (transport 1000) short_payload)
detect_single_example = detect_single-Readable (transport 1000) short_payload

abbrev empty_engine : Engine
empty_engine = record { flow_states = []; tftp_ports = [] }

new_flow : lookup (flow 1000) (empty_engine.flow_states) ≡ none
unfolding lookup
new_flow = refl

two_calls : calls_of (flow 1000) calls ≡ 2
unfolding calls_of flow_eq ip_eq bytes_eq
two_calls = refl

run-decides_example :
    (engine' : Engine) × (run empty_engine 2 calls ≡ some engine')
    × ((state_of (flow 1000) engine').decided ≡ true)
run-decides_example =
    run-decides empty_engine (flow 1000) 2 calls (omega arith) (omega arith) new_flow
      (omega (arith, two_calls))

abbrev known_engine : Engine
known_engine = record {
  flow_states =
      (flow 1000, record { packets_seen = 3; result = AppProtocol.http; decided = true }) ∷ [];
  tftp_ports = [];
}

known_decided : (state_of (flow 1000) known_engine).decided ≡ true
unfolding state_of or_undecided lookup flow_eq ip_eq bytes_eq
known_decided = refl

known_http : is_multiplexed (state_of (flow 1000) known_engine).result ≡ false
unfolding state_of or_undecided lookup flow_eq ip_eq bytes_eq is_multiplexed
known_http = refl

run_stays_example :
    (engine' : Engine) × (run known_engine 10 calls ≡ some engine')
    × (state_of (flow 1000) engine' ≡ state_of (flow 1000) known_engine)
    × ((l : Layer4) (p : Bytes)
        → detect_flow engine' (flow 1000) l p 10
          ≡ some (engine', (state_of (flow 1000) known_engine).result))
run_stays_example = run_stays known_engine (flow 1000) 10 calls known_decided known_http
