-- ===== src/Processor/Workers.antt =====
-- The list of workers of src/processor.cpp: one worker of it, and how many items all of them have.
use fdpi.Base.{
  ℕ, zero, suc, ◌+◌, ◌≡◌, ◌≢◌, refl, ap, Option, none, some, List, [], ◌∷◌, ◌++◌, length, arith,
}
use fdpi.Processor.{WorkItem, WorkerThread, each_worker}

unfoldable pub worker : {D : Type 0} → ℕ → List (WorkerThread D) → Option (WorkerThread D)
worker i [] = none
worker zero (w ∷ ws) = some w
worker (suc i) (w ∷ ws) = worker i ws

-- A write through `*workers[i]`.
unfoldable pub set_worker :
    {D : Type 0} → ℕ → WorkerThread D → List (WorkerThread D) → List (WorkerThread D)
set_worker i v [] = []
set_worker zero v (w ∷ ws) = v ∷ ws
set_worker (suc i) v (w ∷ ws) = w ∷ set_worker i v ws

-- The item that a worker works on, and those in its queue, in this order.
unfoldable pub in_hand : Option WorkItem → List WorkItem
in_hand none = []
in_hand (some item) = item ∷ []

abbrev pub contents : {D : Type 0} → WorkerThread D → List WorkItem
contents w = in_hand w.item ++ w.queue

unfoldable pub waiting : {D : Type 0} → List (WorkerThread D) → ℕ
waiting [] = 0
waiting (w ∷ ws) = length (contents w) + waiting ws

module _ {D : Type 0} where
  pub worker-set_worker :
      (i : ℕ) (v w : WorkerThread D) (ws : List (WorkerThread D))
      → worker i ws ≡ some w
      → worker i (set_worker i v ws) ≡ some v
  unfolding worker set_worker
  worker-set_worker i v w [] e = cc
  worker-set_worker zero v w (u ∷ ws) e = refl
  worker-set_worker (suc i) v w (u ∷ ws) e = worker-set_worker i v w ws e

  pub worker-set_worker_other :
      (i j : ℕ) (v : WorkerThread D) (ws : List (WorkerThread D))
      → i ≢ j
      → worker i (set_worker j v ws) ≡ worker i ws
  unfolding worker set_worker
  worker-set_worker_other i j v [] ne = refl
  worker-set_worker_other zero zero v (u ∷ ws) ne = absurd (ne refl)
  worker-set_worker_other zero (suc j) v (u ∷ ws) ne = refl
  worker-set_worker_other (suc i) zero v (u ∷ ws) ne = refl
  worker-set_worker_other (suc i) (suc j) v (u ∷ ws) ne =
      worker-set_worker_other i j v ws (λ e. ne (ap suc e))

  pub waiting-set_worker :
      (i : ℕ) (v w : WorkerThread D) (ws : List (WorkerThread D))
      → worker i ws ≡ some w
      → waiting (set_worker i v ws) + length (contents w) ≡ waiting ws + length (contents v)
  unfolding worker set_worker waiting
  waiting-set_worker i v w [] e = cc
  waiting-set_worker zero v w (u ∷ ws) e = ground (arith, same e)
    where
      same : some u ≡ some w → length (contents u) ≡ length (contents w)
      same e = cc
  waiting-set_worker (suc i) v w (u ∷ ws) e = omega (arith, waiting-set_worker i v w ws e)

  pub worker-each_worker :
      (f : WorkerThread D → WorkerThread D) (i : ℕ) (w : WorkerThread D)
      → (ws : List (WorkerThread D)) → worker i ws ≡ some w
      → worker i (each_worker f ws) ≡ some (f w)
  unfolding worker each_worker
  worker-each_worker f i w [] e = cc
  worker-each_worker f zero w (u ∷ ws) e = ap (λ o. some (f (get o))) e
    where
      get : Option (WorkerThread D) → WorkerThread D
      get none = w
      get (some a) = a
  worker-each_worker f (suc i) w (u ∷ ws) e = worker-each_worker f i w ws e

  pub waiting-each_worker :
      (f : WorkerThread D → WorkerThread D)
      → ((w : WorkerThread D) → contents (f w) ≡ contents w)
      → (ws : List (WorkerThread D)) → waiting (each_worker f ws) ≡ waiting ws
  unfolding waiting each_worker
  waiting-each_worker f same [] = refl
  waiting-each_worker f same (w ∷ ws) =
      ground (arith, ap length (same w), waiting-each_worker f same ws)
