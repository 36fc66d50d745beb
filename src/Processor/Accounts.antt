-- ===== src/Processor/Accounts.antt =====
-- What becomes of the packets that are submitted to src/processor.cpp.
use fdpi.Base.{
  if_false, if_true, ℕ, ◌+◌, ◌%◌, ◌^◌, ◌<◌, ◌≡◌, refl, ap, ◌∙◌, Bool, true, false, Bool-cases, inl,
  inr, List, [], ◌∷◌, length, length-append, arith, if-elim,
}
use fdpi.Processor.{
  WorkItem, Processor, admit, push, start, stop, finish, count, run_worker, stop_worker,
}
use fdpi.Processor.Workers.{contents, waiting, waiting-set_worker, waiting-each_worker}
use fdpi.Processor.Order.{next_item-contents, push-contents, finish-contents}
use fdpi.Processor.Steps.{
  Event, submitted, finished, Step, submits, pushes, wakes, finishes, starts, stops, Run, done,
  next, put_worker,
}
use fdpi.Processor.Counts.{accepted, decoded, dropped, accepted-split, decoded-split, dropped-split}

-- The packets that are neither decoded nor dropped yet.
abbrev pub open_items : {D : Type 0} → Processor D → ℕ
open_items p = length p.pending + waiting p.workers

-- How the counts of two states differ by what happened in between.
pub record AreAccounted {D : Type 0} (p : Processor D) (es : List Event) (q : Processor D)
    : Type 0 where
  pub items : open_items p + accepted es ≡ open_items q + (decoded es + dropped es)
  pub processed : q.packets_processed ≡ (p.packets_processed + decoded es) % 2 ^ 64
  pub failed : q.packets_dropped ≡ (p.packets_dropped + dropped es) % 2 ^ 64

module _ {D : Type 0} where
  admit-open_items :
      (item : WorkItem) (p : Processor D)
      → open_items (admit item p) ≡ open_items p + accepted (submitted item p.started ∷ [])
  unfolding admit accepted
  admit-open_items item p = elim (Bool-cases p.started) [
    | inl on ↦
        let one = ap (λ b. accepted (submitted item b ∷ [])) on in
        ap open_items (if_true p.started _ p on) ∙ omega (arith, one)
    | inr off ↦
        let none_else = ap (λ b. accepted (submitted item b ∷ [])) off in
        ap open_items (if_false p.started _ p off) ∙ omega (arith, none_else)
  ]

  start-open_items : (p : Processor D) → open_items (start p) ≡ open_items p
  unfolding start run_worker
  start-open_items p =
      if-elim {A = Processor D} (λ k. open_items k ≡ open_items p) p.started (λ _. refl)
        λ _. ap (λ n. length p.pending + n) (waiting-each_worker run_worker (λ _. refl) p.workers)

  stop-open_items : (p : Processor D) → open_items (stop p) ≡ open_items p
  unfolding stop stop_worker
  stop-open_items p =
      if-elim {A = Processor D} (λ k. open_items k ≡ open_items p) p.started
        (λ _.
          ap (λ n. length p.pending + n) (waiting-each_worker stop_worker (λ _. refl) p.workers))
        λ _. refl

  -- A step that does not touch the counters.
  abbrev IsSilent : Processor D → Processor D → Type 0
  IsSilent p q =
      (q.packets_processed ≡ p.packets_processed) × (q.packets_dropped ≡ p.packets_dropped)

  admit-IsSilent : (item : WorkItem) (p : Processor D) → IsSilent p (admit item p)
  unfolding admit
  admit-IsSilent item p = if-elim (IsSilent p) p.started (λ _. (refl, refl)) λ _. (refl, refl)

  start-IsSilent : (p : Processor D) → IsSilent p (start p)
  unfolding start
  start-IsSilent p = if-elim (IsSilent p) p.started (λ _. (refl, refl)) λ _. (refl, refl)

  stop-IsSilent : (p : Processor D) → IsSilent p (stop p)
  unfolding stop
  stop-IsSilent p = if-elim (IsSilent p) p.started (λ _. (refl, refl)) λ _. (refl, refl)

  silent-AreAccounted :
      (p q : Processor D) (e : Event)
      → p.packets_processed < 2 ^ 64
      → p.packets_dropped < 2 ^ 64
      → open_items q ≡ open_items p + accepted (e ∷ [])
      → IsSilent p q
      → (decoded (e ∷ []) ≡ 0) × (dropped (e ∷ []) ≡ 0)
      → AreAccounted p (e ∷ []) q
  silent-AreAccounted p q e small small' items same none_done = record {
    items = omega (arith, items, none_done);
    processed = omega (arith, same, none_done);
    failed = omega (arith, same, none_done);
  }

module _ {D : Type 0} (decode : D → WorkItem → D × Bool) where
  count-AreAccounted :
      (p q : Processor D) (i : ℕ) (item : WorkItem) (good : Bool)
      → p.packets_processed < 2 ^ 64
      → p.packets_dropped < 2 ^ 64
      → IsSilent p q
      → open_items p ≡ open_items q + 1
      → AreAccounted p (finished i item good ∷ []) (count decode good q)
  unfolding count accepted decoded dropped
  count-AreAccounted p q i item true small small' same items = record {
    items = omega (arith, items);
    processed = omega (arith, same);
    failed = omega (arith, same);
  }
  count-AreAccounted p q i item false small small' same items = record {
    items = omega (arith, items);
    processed = omega (arith, same);
    failed = omega (arith, same);
  }

  Step-AreAccounted :
      (p q : Processor D) (e : Event)
      → p.packets_processed < 2 ^ 64
      → p.packets_dropped < 2 ^ 64
      → Step decode p e q
      → AreAccounted p (e ∷ []) q
  unfolding accepted decoded dropped
  Step-AreAccounted p q e small small' (submits item) =
      silent-AreAccounted p _ _ small small' (admit-open_items item p) (admit-IsSilent item p)
        (refl, refl)
  Step-AreAccounted p q e small small' (pushes i item before after v pending there) =
      silent-AreAccounted p _ _ small small'
        (omega (
          arith,
          ap length pending,
          length-append before after,
          length-append before ((i, item) ∷ after),
          waiting-set_worker i (push item v) v p.workers there,
          ap length (push-contents item v),
          length-append (contents v) (item ∷ []),
        ))
        (refl, refl) (refl, refl)
  Step-AreAccounted p q e small small' (wakes i v v' there _ free woke) =
      silent-AreAccounted p _ _ small small'
        (omega (
          arith,
          waiting-set_worker i v' v p.workers there,
          ap length (next_item-contents v v' free woke),
        ))
        (refl, refl) (refl, refl)
  Step-AreAccounted p q e small small' (finishes i v item there busy) =
      count-AreAccounted p (put_worker i (finish decode item v) p) i item _ small small'
        (refl, refl)
        (omega (
          arith,
          waiting-set_worker i (finish decode item v) v p.workers there,
          ap length (finish-contents decode v item busy),
        ))
  Step-AreAccounted p q e small small' (starts _) =
      silent-AreAccounted p _ _ small small' (omega (arith, start-open_items p)) (start-IsSilent p)
        (refl, refl)
  Step-AreAccounted p q e small small' stops =
      silent-AreAccounted p _ _ small small' (omega (arith, stop-open_items p)) (stop-IsSilent p)
        (refl, refl)

-- In every run, with any number of threads that submit, the packets that are accepted and those
-- that are open are the packets that are decoded, dropped or still open, and the counters have
-- gone up by what was decoded and by what was dropped, modulo 2 ^ 64.
pub Run-AreAccounted :
    {D : Type 0} (decode : D → WorkItem → D × Bool) (p q : Processor D) (es : List Event)
    → p.packets_processed < 2 ^ 64
    → p.packets_dropped < 2 ^ 64
    → Run decode p es q
    → AreAccounted p es q
unfolding accepted decoded dropped
Run-AreAccounted decode p q [] small small' done = record {
  items = omega arith;
  processed = omega arith;
  failed = omega arith;
}
Run-AreAccounted decode p q (e ∷ es) small small' (next {q = m} step run) =
    let one = Step-AreAccounted decode p m e small small' step in
    let rest =
      Run-AreAccounted decode m q es (omega (arith, one.processed)) (omega (arith, one.failed))
        run in
    record {
      items = omega (
        arith,
        one.items,
        rest.items,
        accepted-split e es,
        decoded-split e es,
        dropped-split e es,
      );
      processed = omega (arith, one.processed, rest.processed, decoded-split e es);
      failed = omega (arith, one.failed, rest.failed, dropped-split e es);
    }
