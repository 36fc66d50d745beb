-- ===== src/Processor/Order.antt =====
-- Each worker of src/processor.cpp finishes its items in the order in which they were pushed.
use fdpi.Base.{
  if-elim, ℕ, ◌≡◌, refl, sym, ap, ◌∙◌, subst, Bool, true, false, inl, inr, Bool-cases, Option, none,
  some, List, [], ◌∷◌, ◌++◌, append_assoc, append-nil, ◌==◌, arith, if◌then◌else◌, if_true,
  if_false,
}
use fdpi.Processor.{
  next_of, WorkItem, WorkerThread, Processor, admit, push, next_item, start, stop, finish, count,
  run_worker, stop_worker,
}
use fdpi.Processor.Workers.{
  worker, set_worker, in_hand, contents, worker-set_worker, worker-set_worker_other,
  worker-each_worker,
}
use fdpi.Processor.Steps.{
  Event, submitted, pushed, woken, finished, started, stopped, Step, submits, pushes, wakes,
  finishes, starts, stops, Run, done, next, pushed_to, finished_by,
}

pub some-injective : {A : Type 0} {a b : A} → some a ≡ some b → a ≡ b
some-injective e = cc

module _ {D : Type 0} where
  next_of-contents :
      (queue : List WorkItem) (w w' : WorkerThread D)
      → w.queue ≡ queue
      → w.item ≡ none
      → next_of queue w ≡ some w'
      → contents w' ≡ contents w
  unfolding next_of in_hand
  next_of-contents [] w w' q free e = elim (Bool-cases w.running) [
    | inl on ↦ absurd (waits (sym (if_true w.running none _ on) ∙ e))
    | inr off ↦ ap contents (some-injective (sym e ∙ if_false w.running none _ off))
  ]
    where
      waits : ◌≡◌ {A = Option (WorkerThread D)} none (some w') → ⊥
      waits e = cc
  next_of-contents (item ∷ queue) w w' q free e =
      ap contents (sym (some-injective e)) ∙ rw (free, q) refl

  pub next_item-contents :
      (w w' : WorkerThread D) → w.item ≡ none → next_item w ≡ some w' → contents w' ≡ contents w
  unfolding next_item
  next_item-contents w w' free e = next_of-contents w.queue w w' refl free e

  pub push-contents :
      (item : WorkItem) (w : WorkerThread D) → contents (push item w) ≡ contents w ++ (item ∷ [])
  unfolding push
  push-contents item w = sym (append_assoc (in_hand w.item) w.queue (item ∷ []))

  -- A write to one worker, which takes in `a true` and gives out `b true`, seen from any worker.
  set_worker-contents :
      (i j : ℕ) (w v v' : WorkerThread D) (ws : List (WorkerThread D))
      → (a b : Bool → List WorkItem) → worker i ws ≡ some w
      → worker j ws ≡ some v
      → contents v ++ a true ≡ b true ++ contents v'
      → (a false ≡ []) × (b false ≡ [])
      → (w' : WorkerThread D) × (worker i (set_worker j v' ws) ≡ some w')
        × (contents w ++ a (j == i) ≡ b (j == i) ++ contents w')
  set_worker-contents i j w v v' ws a b hi hj moved none_else = elim (Bool-cases (j == i)) [
    | inl same ↦
        let e : j ≡ i = ground arith in
        let k : w ≡ v = some-injective (sym hi ∙ subst (λ k. worker k ws ≡ some v) e hj) in
        (
          v',
          subst (λ k. worker k (set_worker j v' ws) ≡ some v') e (worker-set_worker j v' v ws hj),
          subst (λ u. contents u ++ a (j == i) ≡ b (j == i) ++ contents v') (sym k)
              (subst (λ t. contents v ++ a t ≡ b t ++ contents v') (sym same) moved),
        )
    | inr other ↦ (
      w,
      worker-set_worker_other i j v' ws (λ e. ground arith) ∙ hi,
      subst (λ t. contents w ++ a t ≡ b t ++ contents w) (sym other)
          (ap (λ l. contents w ++ l) none_else.0
            ∙ append-nil (contents w)
            ∙ sym (ap (λ l. l ++ contents w) none_else.1)),
    )
  ]

  pub admit-workers : (item : WorkItem) (p : Processor D) → (admit item p).workers ≡ p.workers
  unfolding admit
  admit-workers item p =
      if-elim {A = Processor D} (λ k. k.workers ≡ p.workers) p.started (λ _. refl) λ _. refl

  -- A worker of the processor that holds what it held before.
  abbrev Keeps : ℕ → WorkerThread D → Processor D → Type 0
  Keeps i w p = (w' : WorkerThread D) × (worker i p.workers ≡ some w') × (contents w' ≡ contents w)

  start-Keeps :
      (i : ℕ) (w : WorkerThread D) (p : Processor D)
      → worker i p.workers ≡ some w
      → Keeps i w (start p)
  unfolding start run_worker
  start-Keeps i w p h =
      if-elim (Keeps i w) p.started (λ _. (w, h, refl))
        λ _. (run_worker w, worker-each_worker run_worker i w p.workers h, refl)

  stop-Keeps :
      (i : ℕ) (w : WorkerThread D) (p : Processor D)
      → worker i p.workers ≡ some w
      → Keeps i w (stop p)
  unfolding stop stop_worker
  stop-Keeps i w p h =
      if-elim (Keeps i w) p.started
        (λ _. (stop_worker w, worker-each_worker stop_worker i w p.workers h, refl))
        λ _. (w, h, refl)

module _ {D : Type 0} (decode : D → WorkItem → D × Bool) where
  pub finish-contents :
      (w : WorkerThread D) (item : WorkItem)
      → w.item ≡ some item
      → contents w ≡ item ∷ contents (finish decode item w)
  unfolding finish in_hand
  finish-contents w item e = rw e refl

  pub count-workers : (good : Bool) (p : Processor D) → (count decode good p).workers ≡ p.workers
  unfolding count
  count-workers true p = refl
  count-workers false p = refl

  -- What a worker holds after a step, given what it held before.
  abbrev Moved : ℕ → WorkerThread D → Event → Processor D → Type 0
  Moved i w e p =
      (w' : WorkerThread D) × (worker i p.workers ≡ some w')
      × (contents w ++ pushed_to i (e ∷ []) ≡ finished_by i (e ∷ []) ++ contents w')

  Step-Moved :
      (i : ℕ) (w : WorkerThread D) (p q : Processor D) (e : Event)
      → worker i p.workers ≡ some w
      → Step decode p e q
      → Moved i w e q
  unfolding pushed_to finished_by
  Step-Moved i w p q e h (submits item) =
      (w, ap (worker i) (admit-workers item p) ∙ h, append-nil (contents w))
  Step-Moved i w p q e h (pushes j item before after v _ there) =
      set_worker-contents i j w v (push item v) p.workers (λ b. if b then item ∷ [] else [])
        (λ _. []) h there (sym (push-contents item v)) (refl, refl)
  Step-Moved i w p q e h (wakes j v v' there _ free woke) =
      set_worker-contents i j w v v' p.workers (λ _. []) (λ _. []) h there
        (append-nil (contents v) ∙ sym (next_item-contents v v' free woke)) (refl, refl)
  Step-Moved i w p q e h (finishes j v item there busy) =
      let (w', found, moved) =
        set_worker-contents i j w v (finish decode item v) p.workers (λ _. [])
          (λ b. if b then item ∷ [] else []) h there
          (append-nil (contents v) ∙ finish-contents v item busy) (refl, refl) in
      (w', ap (worker i) (count-workers _ _) ∙ found, moved)
  Step-Moved i w p q e h (starts _) =
      let (w', found, same) = start-Keeps i w p h in (w', found, append-nil (contents w) ∙ sym same)
  Step-Moved i w p q e h stops =
      let (w', found, same) = stop-Keeps i w p h in (w', found, append-nil (contents w) ∙ sym same)

if-append :
    (b : Bool) (item : WorkItem) (l : List WorkItem)
    → (if b then item ∷ l else l) ≡ (if b then item ∷ [] else []) ++ l
if-append true item l = refl
if-append false item l = refl

pushed_to-split :
    (i : ℕ) (e : Event) (es : List Event)
    → pushed_to i (e ∷ es) ≡ pushed_to i (e ∷ []) ++ pushed_to i es
unfolding pushed_to
pushed_to-split i (submitted item _) es = refl
pushed_to-split i (pushed j item) es = if-append (j == i) item _
pushed_to-split i (woken j) es = refl
pushed_to-split i (finished j item good) es = refl
pushed_to-split i started es = refl
pushed_to-split i stopped es = refl

finished_by-split :
    (i : ℕ) (e : Event) (es : List Event)
    → finished_by i (e ∷ es) ≡ finished_by i (e ∷ []) ++ finished_by i es
unfolding finished_by
finished_by-split i (submitted item _) es = refl
finished_by-split i (pushed j item) es = refl
finished_by-split i (woken j) es = refl
finished_by-split i (finished j item good) es = if-append (j == i) item _
finished_by-split i started es = refl
finished_by-split i stopped es = refl

-- In every run, and whatever the other threads do, a worker finishes what it held first, and then
-- what is pushed to it, in this order, one by one and without a loss: what it held and what is
-- pushed is what it finishes and then what it holds.
pub Run-contents :
    {D : Type 0} (decode : D → WorkItem → D × Bool) (i : ℕ) (p q : Processor D) (es : List Event)
    → (w : WorkerThread D) → Run decode p es q
    → worker i p.workers ≡ some w
    → (w' : WorkerThread D) × (worker i q.workers ≡ some w')
      × (contents w ++ pushed_to i es ≡ finished_by i es ++ contents w')
unfolding pushed_to finished_by
Run-contents decode i p q [] w done h = (w, h, append-nil (contents w))
Run-contents decode i p q (e ∷ es) w (next {q = m} step run) h =
    let (v, there, one) = Step-Moved decode i w p m e h step in
    let (w', there', rest) = Run-contents decode i m q es v run there in
    (
      w',
      there',
      ap (λ l. contents w ++ l) (pushed_to-split i e es)
          ∙ sym (append_assoc (contents w) (pushed_to i (e ∷ [])) (pushed_to i es))
          ∙ ap (λ l. l ++ pushed_to i es) one
          ∙ append_assoc (finished_by i (e ∷ [])) (contents v) (pushed_to i es)
          ∙ ap (λ l. finished_by i (e ∷ []) ++ l) rest
          ∙ sym (append_assoc (finished_by i (e ∷ [])) (finished_by i es) (contents w'))
          ∙ ap (λ l. l ++ contents w') (sym (finished_by-split i e es)),
    )
