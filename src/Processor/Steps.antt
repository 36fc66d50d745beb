-- ===== src/Processor/Steps.antt =====
-- The atomic steps of the threads of src/processor.cpp, in any order, and runs of them. `start` and
-- `stop` are called one after another: a thread is started where none is running.
use fdpi.Base.{ℕ, ◌≡◌, ◌==◌, Bool, true, false, none, some, List, [], ◌∷◌, ◌++◌, if◌then◌else◌}
use fdpi.Processor.{
  WorkItem, WorkerThread, Processor, admit, push, next_item, start, stop, finish, count,
}
use fdpi.Processor.Workers.{worker, set_worker}

-- What a step does; a submission is accepted if the processor is started.
pub data Event : Type 0 where
  submitted : WorkItem → Bool → Event
  pushed : ℕ → WorkItem → Event
  woken : ℕ → Event
  finished : ℕ → WorkItem → Bool → Event
  started stopped : Event

abbrev pub put_worker : {D : Type 0} → ℕ → WorkerThread D → Processor D → Processor D
put_worker i w p = record p { workers = set_worker i w p.workers }

-- Every thread has left its loop.
unfoldable pub all_exited : {D : Type 0} → List (WorkerThread D) → Bool
all_exited [] = true
all_exited (w ∷ ws) = if w.exited then all_exited ws else false

module _ {D : Type 0} (decode : D → WorkItem → D × Bool) where
  pub data Step (p : Processor D) : Event → Processor D → Type 0 where
    submits : (item : WorkItem) → Step p (submitted item p.started) (admit item p)
    pushes :
        (i : ℕ) (item : WorkItem) (before after : List (ℕ × WorkItem)) (w : WorkerThread D)
        → p.pending ≡ before ++ ((i, item) ∷ after)
        → worker i p.workers ≡ some w
        → Step p
            (pushed i item)
            (put_worker i (push item w) (record p { pending = before ++ after }))
    wakes :
        (i : ℕ) (w w' : WorkerThread D)
        → worker i p.workers ≡ some w
        → w.exited ≡ false
        → w.item ≡ none
        → next_item w ≡ some w'
        → Step p (woken i) (put_worker i w' p)
    finishes :
        (i : ℕ) (w : WorkerThread D) (item : WorkItem)
        → worker i p.workers ≡ some w
        → w.item ≡ some item
        → Step p
            (finished i item (decode w.decoder item).1)
            (count decode (decode w.decoder item).1 (put_worker i (finish decode item w) p))
    starts : all_exited p.workers ≡ true → Step p started (start p)
    stops : Step p stopped (stop p)

  pub data Run : Processor D → List Event → Processor D → Type 0 where
    done : {p : Processor D} → Run p [] p
    next :
        {p q r : Processor D} {e : Event} {es : List Event}
        → Step p e q
        → Run q es r
        → Run p (e ∷ es) r

-- The items that are pushed to a worker, and those that it finishes, in the order of the run.
unfoldable pub pushed_to : ℕ → List Event → List WorkItem
pushed_to i [] = []
pushed_to i (pushed j item ∷ es) = if j == i then item ∷ pushed_to i es else pushed_to i es
pushed_to i (_ ∷ es) = pushed_to i es

unfoldable pub finished_by : ℕ → List Event → List WorkItem
finished_by i [] = []
finished_by i (finished j item _ ∷ es) =
    if j == i then item ∷ finished_by i es else finished_by i es
finished_by i (_ ∷ es) = finished_by i es
