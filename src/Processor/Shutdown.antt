-- ===== src/Processor/Shutdown.antt =====
-- `stop` of src/processor.cpp: the threads empty their queues before they leave.
use fdpi.Base.{
  ℕ, zero, suc, ◌≡◌, ◌==◌, refl, sym, ap, ◌∙◌, subst, Bool, true, false, Bool-cases, inl, inr, none,
  some, List, [], ◌∷◌, length, length-append, arith, if_true, if_false,
}
use fdpi.Processor.{
  WorkItem, WorkerThread, Processor, admit, next_item, next_of, stop, finish, count, each_worker,
  stop_worker,
}
use fdpi.Processor.Workers.{
  worker, set_worker, in_hand, contents, waiting, worker-set_worker, worker-set_worker_other,
}
use fdpi.Processor.Order.{finish-contents, some-injective}
use fdpi.Processor.Steps.{
  Event, submitted, pushed, woken, finished, started, stopped, Step, submits, pushes, wakes,
  finishes, starts, stops, Run, done, next, put_worker, all_exited,
}
use fdpi.Processor.Accounts.{open_items}

unfoldable pub restarts : List Event → Bool
restarts [] = false
restarts (started ∷ es) = true
restarts (_ ∷ es) = restarts es

-- A worker that is told to stop, and whose thread has left only with nothing to do.
abbrev pub IsWinding : {D : Type 0} → WorkerThread D → Type 0
IsWinding w = (w.running ≡ false) × (w.exited ≡ true → contents w ≡ [])

pub record IsStopped {D : Type 0} (p : Processor D) : Type 0 where
  pub off : p.started ≡ false
  pub no_pending : p.pending ≡ []
  pub winding : (i : ℕ) (w : WorkerThread D) → worker i p.workers ≡ some w → IsWinding w

module _ {D : Type 0} where
  next_of-IsWinding :
      (queue : List WorkItem) (w w' : WorkerThread D)
      → w.queue ≡ queue
      → w.item ≡ none
      → w.exited ≡ false
      → next_of queue w ≡ some w'
      → IsWinding w
      → IsWinding w'
  unfolding next_of in_hand
  next_of-IsWinding [] w w' q free on e v =
      subst IsWinding (some-injective (sym (if_false w.running none _ v.0) ∙ e))
        (v.0, λ _. rw (free, q) refl)
  next_of-IsWinding (item ∷ queue) w w' q free on e v =
      subst IsWinding (some-injective e) (v.0, λ out. absurd (clash out on))
    where
      clash : w.exited ≡ true → w.exited ≡ false → ⊥
      clash out on = cc

  set_worker-IsWinding :
      (i j : ℕ) (w v v' : WorkerThread D) (ws : List (WorkerThread D))
      → worker j ws ≡ some v
      → IsWinding v'
      → ((i : ℕ) (w : WorkerThread D) → worker i ws ≡ some w → IsWinding w)
      → worker i (set_worker j v' ws) ≡ some w
      → IsWinding w
  set_worker-IsWinding i j w v v' ws there new old h = elim (Bool-cases (j == i)) [
    | inl same ↦
        let e : j ≡ i = ground arith in
        subst IsWinding
          (some-injective (
            sym (worker-set_worker j v' v ws there)
            ∙ subst (λ k. worker k (set_worker j v' ws) ≡ some w) (sym e) h))
          new
    | inr other ↦ old i w (sym (worker-set_worker_other i j v' ws (λ e. ground arith)) ∙ h)
  ]

  put_worker-IsStopped :
      (j : ℕ) (v v' : WorkerThread D) (p : Processor D)
      → worker j p.workers ≡ some v
      → IsWinding v'
      → IsStopped p
      → IsStopped (put_worker j v' p)
  put_worker-IsStopped j v v' p there new s = record {
    off = s.off;
    no_pending = s.no_pending;
    winding = λ i w h. set_worker-IsWinding i j w v v' p.workers there new s.winding h;
  }

  stop_worker-IsWinding :
      (i : ℕ) (w : WorkerThread D) (ws : List (WorkerThread D))
      → ((i : ℕ) (w : WorkerThread D) → worker i ws ≡ some w → w.exited ≡ false)
      → worker i (each_worker stop_worker ws) ≡ some w
      → IsWinding w
  unfolding worker each_worker stop_worker
  stop_worker-IsWinding i w [] alive h = absurd cc
  stop_worker-IsWinding zero w (u ∷ ws) alive h =
      subst IsWinding (some-injective h) (refl, λ out. absurd (clash out (alive zero u refl)))
    where
      clash : u.exited ≡ true → u.exited ≡ false → ⊥
      clash out on = cc
  stop_worker-IsWinding (suc i) w (u ∷ ws) alive h =
      stop_worker-IsWinding i w ws (λ k. alive (suc k)) h

  stop-IsStopped :
      (p : Processor D)
      → p.started ≡ true
      → p.pending ≡ []
      → ((i : ℕ) (w : WorkerThread D) → worker i p.workers ≡ some w → w.exited ≡ false)
      → IsStopped (stop p)
  unfolding stop
  stop-IsStopped p on none_pending alive =
      subst IsStopped (sym (if_true p.started _ p on)) (record {
        off = refl;
        no_pending = none_pending;
        winding = λ i w h. stop_worker-IsWinding i w p.workers alive h;
      })

  all_exited-waiting :
      (ws : List (WorkerThread D))
      → ((i : ℕ) (w : WorkerThread D) → worker i ws ≡ some w → IsWinding w)
      → all_exited ws ≡ true
      → waiting ws ≡ 0
  unfolding worker all_exited waiting
  all_exited-waiting [] winding out = refl
  all_exited-waiting (w ∷ ws) winding out = elim (Bool-cases w.exited) [
    | inl gone ↦ omega (
      arith,
      ap length ((winding zero w refl).1 gone),
      all_exited-waiting ws (λ k. winding (suc k))
          (sym (if_true w.exited (all_exited ws) false gone) ∙ out),
    )
    | inr stays ↦ absurd (clash (sym (if_false w.exited (all_exited ws) false stays) ∙ out))
  ]
    where
      clash : false ≡ true → ⊥
      clash e = cc

restarts-split :
    (e : Event) (es : List Event)
    → restarts (e ∷ es) ≡ false
    → (restarts (e ∷ []) ≡ false) × (restarts es ≡ false)
unfolding restarts
restarts-split (submitted item good) es kept = (refl, kept)
restarts-split (pushed i item) es kept = (refl, kept)
restarts-split (woken i) es kept = (refl, kept)
restarts-split (finished i item good) es kept = (refl, kept)
restarts-split started es kept = absurd cc
restarts-split stopped es kept = (refl, kept)

module _ {D : Type 0} (decode : D → WorkItem → D × Bool) where
  count-IsStopped : (good : Bool) (p : Processor D) → IsStopped p → IsStopped (count decode good p)
  unfolding count
  count-IsStopped true p s = record { off = s.off; no_pending = s.no_pending; winding = s.winding }
  count-IsStopped false p s = record { off = s.off; no_pending = s.no_pending; winding = s.winding }

  finish-IsWinding :
      (item : WorkItem) (v : WorkerThread D)
      → v.item ≡ some item
      → IsWinding v
      → IsWinding (finish decode item v)
  unfolding finish
  finish-IsWinding item v busy w =
      (w.0, λ out. absurd (clash (sym (w.1 out) ∙ finish-contents decode v item busy)))
    where
      clash : {x : WorkItem} {l : List WorkItem} → [] ≡ x ∷ l → ⊥
      clash e = cc

  Step-IsStopped :
      (p q : Processor D) (e : Event)
      → restarts (e ∷ []) ≡ false
      → IsStopped p
      → Step decode p e q
      → IsStopped q
  unfolding restarts admit stop next_item
  Step-IsStopped p q e kept s (submits item) =
      subst IsStopped (sym (if_false p.started _ p s.off)) s
  Step-IsStopped p q e kept s (pushes i item before after v pending there) = absurd (
      omega (
        arith,
        ap length s.no_pending,
        ap length pending,
        length-append before ((i, item) ∷ after),
      ))
  Step-IsStopped p q e kept s (wakes i v v' there on free woke) =
      put_worker-IsStopped i v v' p there
        (next_of-IsWinding v.queue v v' refl free on woke (s.winding i v there)) s
  Step-IsStopped p q e kept s (finishes i v item there busy) =
      count-IsStopped _ _
        (put_worker-IsStopped i v _ p there (finish-IsWinding item v busy (s.winding i v there)) s)
  Step-IsStopped p q e kept s (starts _) = absurd cc
  Step-IsStopped p q e kept s stops = subst IsStopped (sym (if_false p.started _ p s.off)) s

  Run-IsStopped :
      (p q : Processor D) (es : List Event)
      → restarts es ≡ false
      → IsStopped p
      → Run decode p es q
      → IsStopped q
  Run-IsStopped p q [] kept s done = s
  Run-IsStopped p q (e ∷ es) kept s (next {q = m} step run) =
      Run-IsStopped m q es (restarts-split e es kept).1
        (Step-IsStopped p m e (restarts-split e es kept).0 s step) run

  -- A processor is stopped while every thread is in its loop and no submission is on its way. When
  -- all threads have left their loops, and it has not been started again, no packet is open: the
  -- packets that were in the queues and in work are decoded or dropped, whatever was submitted
  -- in the meantime.
  pub stop-empties :
      (p q : Processor D) (es : List Event)
      → p.started ≡ true
      → p.pending ≡ []
      → ((i : ℕ) (w : WorkerThread D) → worker i p.workers ≡ some w → w.exited ≡ false)
      → Run decode (stop p) es q
      → restarts es ≡ false
      → all_exited q.workers ≡ true
      → open_items q ≡ 0
  stop-empties p q es on none_pending alive run kept out =
      let s = Run-IsStopped (stop p) q es kept (stop-IsStopped p on none_pending alive) run in
      omega (arith, ap length s.no_pending, all_exited-waiting q.workers s.winding out)
