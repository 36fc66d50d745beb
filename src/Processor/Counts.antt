-- ===== src/Processor/Counts.antt =====
-- Counts over a run of src/processor.cpp.
use fdpi.Base.{ℕ, ◌+◌, ◌≡◌, true, false, List, [], ◌∷◌, arith}
use fdpi.Processor.Steps.{Event, submitted, pushed, woken, finished, started, stopped}

-- Accepted submissions, packets that were decoded, and packets that were not.
unfoldable pub accepted : List Event → ℕ
accepted [] = 0
accepted (submitted _ true ∷ es) = accepted es + 1
accepted (_ ∷ es) = accepted es

unfoldable pub decoded : List Event → ℕ
decoded [] = 0
decoded (finished _ _ true ∷ es) = decoded es + 1
decoded (_ ∷ es) = decoded es

unfoldable pub dropped : List Event → ℕ
dropped [] = 0
dropped (finished _ _ false ∷ es) = dropped es + 1
dropped (_ ∷ es) = dropped es

pub accepted-split :
    (e : Event) (es : List Event) → accepted (e ∷ es) ≡ accepted (e ∷ []) + accepted es
unfolding accepted
accepted-split (submitted item true) es = omega arith
accepted-split (submitted item false) es = omega arith
accepted-split (pushed i item) es = omega arith
accepted-split (woken i) es = omega arith
accepted-split (finished i item true) es = omega arith
accepted-split (finished i item false) es = omega arith
accepted-split started es = omega arith
accepted-split stopped es = omega arith

pub decoded-split : (e : Event) (es : List Event) → decoded (e ∷ es) ≡ decoded (e ∷ []) + decoded es
unfolding decoded
decoded-split (submitted item true) es = omega arith
decoded-split (submitted item false) es = omega arith
decoded-split (pushed i item) es = omega arith
decoded-split (woken i) es = omega arith
decoded-split (finished i item true) es = omega arith
decoded-split (finished i item false) es = omega arith
decoded-split started es = omega arith
decoded-split stopped es = omega arith

pub dropped-split : (e : Event) (es : List Event) → dropped (e ∷ es) ≡ dropped (e ∷ []) + dropped es
unfolding dropped
dropped-split (submitted item true) es = omega arith
dropped-split (submitted item false) es = omega arith
dropped-split (pushed i item) es = omega arith
dropped-split (woken i) es = omega arith
dropped-split (finished i item true) es = omega arith
dropped-split (finished i item false) es = omega arith
dropped-split started es = omega arith
dropped-split stopped es = omega arith
