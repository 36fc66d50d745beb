-- ===== src/Tests/Processing.antt =====
-- Two packets through one worker.
use fdpi.Base.{
  ℕ, zero, suc, ◌+◌, ◌≡◌, refl, Bool, true, false, none, some, List, [], ◌∷◌, ◌++◌, arith,
}
use fdpi.Link.{dlt_en10mb}
use fdpi.Processor.{
  DistributionStrategy, round_robin, WorkItem, WorkerThread, Processor, create, admit, start, stop,
}
use fdpi.Processor.Workers.{worker, contents, waiting}
use fdpi.Processor.Steps.{
  Event, submitted, pushed, woken, finished, submits, pushes, wakes, finishes, Run, done, next,
  pushed_to, finished_by, all_exited,
}
use fdpi.Processor.Order.{Run-contents}
use fdpi.Processor.Accounts.{open_items, AreAccounted, Run-AreAccounted}
use fdpi.Processor.Shutdown.{restarts, stop-empties}

abbrev packet : WorkItem
packet = record { data' = 1 ∷ 2 ∷ []; timestamp = 0; dlt = dlt_en10mb }

-- A decoder that counts its packets, and refuses every one.
abbrev refusing : ℕ → WorkItem → ℕ × Bool
refusing n _ = (n + 1, false)

abbrev at_work : WorkerThread ℕ
at_work = record { queue = packet ∷ []; item = none; running = true; exited = false; decoder = 0 }

abbrev working : Processor ℕ
working = record {
  strategy = round_robin;
  workers = at_work ∷ [];
  packets_processed = 0;
  packets_dropped = 0;
  round_robin_counter = 1;
  started = true;
  pending = [];
}

abbrev taken : WorkerThread ℕ
taken = record { queue = []; item = some packet; running = true; exited = false; decoder = 0 }

abbrev events : List Event
events = submitted packet true ∷ woken 0 ∷ pushed 0 packet ∷ finished 0 packet false ∷ []

abbrev free : WorkerThread ℕ
free = record { queue = packet ∷ []; item = none; running = true; exited = false; decoder = 1 }

abbrev later : Processor ℕ
later = record {
  strategy = round_robin;
  workers = free ∷ [];
  packets_processed = 0;
  packets_dropped = 1;
  round_robin_counter = 2;
  started = true;
  pending = [];
}

run : Run refusing working events later
unfolding admit fdpi.Processor.next_counter fdpi.Processor.worker_index worker
    fdpi.Processor.next_item fdpi.Processor.next_of fdpi.Processor.Workers.set_worker
    fdpi.Processor.push fdpi.Processor.finish fdpi.Processor.count
run = next (submits packet) (
    next (wakes 0 at_work taken refl refl refl refl) (
      next (pushes 0 packet [] [] taken refl refl)
        (next (finishes 0 (record taken { queue = packet ∷ [] }) packet refl refl) done)))

Run-contents_example :
    (w' : WorkerThread ℕ) × (worker 0 later.workers ≡ some w')
    × (contents at_work ++ pushed_to 0 events ≡ finished_by 0 events ++ contents w')
unfolding worker
Run-contents_example = Run-contents refusing 0 working later events at_work run refl

Run-AreAccounted_example : AreAccounted working events later
Run-AreAccounted_example =
    Run-AreAccounted refusing working later events (omega arith) (omega arith) run

abbrev last_events : List Event
last_events = woken 0 ∷ finished 0 packet false ∷ submitted packet false ∷ woken 0 ∷ []

abbrev stopping : WorkerThread ℕ
stopping = record { queue = packet ∷ []; item = none; running = false; exited = false; decoder = 0 }

abbrev finishing : WorkerThread ℕ
finishing = record { queue = []; item = some packet; running = false; exited = false; decoder = 0 }

abbrev left_over : WorkerThread ℕ
left_over = record { queue = []; item = none; running = false; exited = false; decoder = 1 }

abbrev gone : WorkerThread ℕ
gone = record { queue = []; item = none; running = false; exited = true; decoder = 1 }

abbrev ended : Processor ℕ
ended = record {
  strategy = round_robin;
  workers = gone ∷ [];
  packets_processed = 0;
  packets_dropped = 1;
  round_robin_counter = 1;
  started = false;
  pending = [];
}

last_run : Run refusing (stop working) last_events ended
unfolding admit worker stop fdpi.Processor.stop_worker fdpi.Processor.each_worker
    fdpi.Processor.next_item fdpi.Processor.next_of fdpi.Processor.Workers.set_worker
    fdpi.Processor.finish fdpi.Processor.count
last_run = next (wakes 0 stopping finishing refl refl refl refl) (
    next (finishes 0 finishing packet refl refl)
      (next (submits packet) (next (wakes 0 left_over gone refl refl refl refl) done)))

alive : (i : ℕ) (w : WorkerThread ℕ) → worker i working.workers ≡ some w → w.exited ≡ false
unfolding worker
alive zero w e = cc
alive (suc i) w e = absurd cc

stop-empties_example : open_items ended ≡ 0
unfolding restarts all_exited
stop-empties_example =
    stop-empties refusing working ended last_events refl refl alive last_run refl refl
