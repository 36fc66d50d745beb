-- ===== src/Processor.antt =====
-- src/processor.cpp: packets are spread over worker threads, each with a queue and a decoder of its
-- own. The atomic actions of the threads are the steps: a submission's test of `started`, its push,
-- a worker's critical section, the end of its work on a packet, `start` and `stop`.
pub mod Workers
pub mod Steps
pub mod Order
pub mod Counts
pub mod Accounts
pub mod Shutdown
use fdpi.Base.{
  ℕ, zero, suc, ◌+◌, ◌*◌, ◌%◌, ◌^◌, Bool, true, false, Option, none, some, List, [], ◌∷◌, ◌++◌,
  length, take, ◌==◌, if◌then◌else◌,
}
use fdpi.Wire.{Bytes}
use fdpi.Link.{DataLinkType}

pub data DistributionStrategy : Type 0 where
  flow_pinned round_robin : DistributionStrategy

pub record WorkItem : Type 0 where
  pub data' : Bytes
  pub timestamp : ℕ
  pub dlt : DataLinkType

-- `WorkerThread`, with the item that its loop works on, and whether no thread is in the loop.
pub record WorkerThread (D : Type 0) : Type 0 where
  pub queue : List WorkItem
  pub item : Option WorkItem
  pub running : Bool
  pub exited : Bool
  pub decoder : D

-- `PacketProcessor::Impl`, with the submissions that have passed the test of `started` and have
-- not pushed their item yet, each with the worker that it has chosen.
pub record Processor (D : Type 0) : Type 0 where
  pub strategy : DistributionStrategy
  pub workers : List (WorkerThread D)
  pub packets_processed : ℕ
  pub packets_dropped : ℕ
  pub round_robin_counter : ℕ
  pub started : Bool
  pub pending : List (ℕ × WorkItem)

abbrev pub idle : {D : Type 0} → D → WorkerThread D
idle decoder = record { queue = []; item = none; running = false; exited = true; decoder = decoder }

unfoldable pub repeat_worker : {D : Type 0} → ℕ → WorkerThread D → List (WorkerThread D)
repeat_worker zero w = []
repeat_worker (suc n) w = w ∷ repeat_worker n w

-- The constructor: no thread asked for is one thread.
unfoldable pub create : {D : Type 0} → DistributionStrategy → ℕ → D → Processor D
create strategy num_threads decoder = record {
  strategy = strategy;
  workers = repeat_worker (if num_threads == 0 then 1 else num_threads) (idle decoder);
  packets_processed = 0;
  packets_dropped = 0;
  round_robin_counter = 0;
  started = false;
  pending = [];
}

-- The loop over the first bytes, with `size_t` arithmetic.
unfoldable pub hash_from : ℕ → Bytes → ℕ
hash_from hash [] = hash
hash_from hash (b ∷ bs) = hash_from ((hash * 31 + b) % 2 ^ 64) bs

unfoldable pub worker_index : DistributionStrategy → ℕ → ℕ → Bytes → ℕ
worker_index round_robin counter workers data' = counter % workers
worker_index flow_pinned counter workers data' = hash_from 0 (take 40 data') % workers

unfoldable pub next_counter : DistributionStrategy → ℕ → ℕ
next_counter round_robin counter = (counter + 1) % 2 ^ 64
next_counter flow_pinned counter = counter

module _ {D : Type 0} where
  -- `submit` up to the choice of a worker; nothing is done if the processor is not started.
  unfoldable pub admit : WorkItem → Processor D → Processor D
  admit item p =
      if p.started
      then record p {
        round_robin_counter = next_counter p.strategy p.round_robin_counter;
        pending =
            (worker_index p.strategy p.round_robin_counter (length p.workers) item.data', item)
            ∷ p.pending;
      }
      else p

  unfoldable pub push : WorkItem → WorkerThread D → WorkerThread D
  push item w = record w { queue = w.queue ++ (item ∷ []) }

  -- The critical section of `workerLoop`: `none` while it waits.
  unfoldable pub next_of : List WorkItem → WorkerThread D → Option (WorkerThread D)
  next_of [] w = if w.running then none else some (record w { exited = true })
  next_of (item ∷ queue) w = some (record w { queue = queue; item = some item })

  unfoldable pub next_item : WorkerThread D → Option (WorkerThread D)
  next_item w = next_of w.queue w

  unfoldable pub run_worker : WorkerThread D → WorkerThread D
  run_worker w = record w { running = true; exited = false }

  unfoldable pub stop_worker : WorkerThread D → WorkerThread D
  stop_worker w = record w { running = false }

  unfoldable pub each_worker :
      (WorkerThread D → WorkerThread D) → List (WorkerThread D) → List (WorkerThread D)
  each_worker f [] = []
  each_worker f (w ∷ ws) = f w ∷ each_worker f ws

  unfoldable pub start : Processor D → Processor D
  start p =
      if p.started
      then p
      else record p { started = true; workers = each_worker run_worker p.workers }

  -- `stop` up to the threads' end, for which it waits.
  unfoldable pub stop : Processor D → Processor D
  stop p =
      if p.started
      then record p { started = false; workers = each_worker stop_worker p.workers }
      else p

-- The end of an iteration of `workerLoop`: the item is decoded, and its outcome counted.
module _ {D : Type 0} (decode : D → WorkItem → D × Bool) where
  unfoldable pub finish : WorkItem → WorkerThread D → WorkerThread D
  finish item w = record w { item = none; decoder = (decode w.decoder item).0 }

  unfoldable pub count : Bool → Processor D → Processor D
  count true p = record p { packets_processed = (p.packets_processed + 1) % 2 ^ 64 }
  count false p = record p { packets_dropped = (p.packets_dropped + 1) % 2 ^ 64 }
