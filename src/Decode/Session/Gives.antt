-- ===== src/Decode/Session/Gives.antt =====
-- Calls of src/decoder.cpp that have a result, and what holds of it.
use fdpi.Stream.Buffer.{held, IsBounded, process_stream-IsBounded}
use fdpi.Base.{
  Option-cases, ℕ, ◌≤◌, ◌≡◌, refl, sym, subst, Bool, true, false, Option, none, some, arith, inl,
  inr, if◌then◌else◌, if-elim,
}
use fdpi.Base.Assoc.{lookup}
use fdpi.Base.Assoc.Laws.{All, All-insert, All-lookup}
use fdpi.Wire.{Bytes, Outcome, ok, err, fault}
use fdpi.Wire.Bounded.{Bounded, returns, fails}
use fdpi.Header.Transport.{Tcp}
use fdpi.Flow.{FlowId, flow_id_eq}
use fdpi.Stream.{Streams, process, stream_of}
use fdpi.Detect.{Engine, detect_flow, is_unknown}
use fdpi.Detect.Decision.{one_call}
use fdpi.Detect.Payload.{tcp_layer}
use fdpi.Decode.Session.{L7Stream, detect_stream}

-- A call that has a result, of which `P` holds, or none and a reason for that.
pub data Gives {A : Type 0} (Reason : Type 0) (P : A → Type 0) : Option A → Type 0 where
  gives : {a : A} → P a → Gives Reason P (some a)
  gives_none : Reason → Gives Reason P none

module _ {Reason : Type 0} where
  pub Gives-elim :
      {A B : Type 0} {P : A → Type 0} {Q : B → Type 0} {m : Option A} {f : A → Option B}
      → Gives Reason P m
      → ((a : A) → P a → Gives Reason Q (f a))
      → Gives Reason Q (elim m [ none ↦ none | some a ↦ f a ])
  Gives-elim (gives p) g = g _ p
  Gives-elim (gives_none r) g = gives_none r

  pub Gives-if :
      {A : Type 0} {P : A → Type 0} (b : Bool) {x y : Option A}
      → (b ≡ true → Gives Reason P x)
      → (b ≡ false → Gives Reason P y)
      → Gives Reason P (if b then x else y)
  Gives-if {P} b f g = if-elim (Gives Reason P) b f g

  -- A call that may have no result, if that is a reason.
  pub Gives-call : {A : Type 0} (m : Option A) → (m ≡ none → Reason) → Gives Reason (λ _. Unit) m
  Gives-call none r = gives_none (r refl)
  Gives-call (some a) r = gives tt

  Gives-known : {A : Type 0} {m : Option A} (a : A) → m ≡ some a → Gives Reason (λ _. Unit) m
  Gives-known a e = subst (Gives Reason (λ _. Unit)) (sym e) (gives tt)

  pub Gives-outcome :
      {A B : Type 0} {lo hi : ℕ} {Q : B → Type 0} {m : Outcome A} {f : A → ℕ → Option B}
      → {g : fdpi.Wire.Error → ℕ → Option B} → Bounded lo hi m
      → ((a : A) (o : ℕ) → o ≤ hi → Gives Reason Q (f a o))
      → ((e : fdpi.Wire.Error) (o : ℕ) → Gives Reason Q (g e o))
      → Gives Reason Q (elim m [ fault ↦ none | err e o ↦ g e o | ok a o ↦ f a o ])
  Gives-outcome (returns l u) f g = f _ _ u
  Gives-outcome (fails l u) f g = g _ _

pub detect_flow-Gives :
    {Reason : Type 0} (engine : Engine) (id : FlowId) (l : fdpi.Detect.Payload.Layer4) (p : Bytes)
    (n : ℕ)
    → Gives Reason (λ _. Unit) (detect_flow engine id l p n)
detect_flow-Gives engine id l p n =
    let (engine', after) =
      one_call engine (record { flow_id = id; layer4 = l; payload = p }) n id in
    Gives-known (engine', after.result) after.returned

pub detect_stream-Gives :
    {Reason : Type 0} (engine : Engine) (id : FlowId) (header : Tcp) (s : L7Stream)
    → Gives Reason (λ r. r.1.buffer ≡ s.buffer) (detect_stream engine id header s)
unfolding detect_stream
detect_stream-Gives engine id header s =
    Gives-if s.detection_done (λ _. gives refl)
      λ _.
        Gives-elim (detect_flow-Gives engine id (tcp_layer header) s.buffer 10)
          λ r _. gives (ground arith)

stream_of-IsBounded :
    (limit : ℕ) (streams : Streams) (id : FlowId)
    → All (λ _ s. IsBounded limit s) streams
    → IsBounded limit (stream_of id streams)
unfolding stream_of held
stream_of-IsBounded limit streams id a = elim (Option-cases (lookup id streams)) [
  | inl e ↦ rw (e, stream_of) (record { counted = omega arith; limited = omega arith })
  | inr (s, e) ↦ rw (e, stream_of) (All-lookup (λ _ s. IsBounded limit s) id s streams e a)
]

pub process-IsBounded :
    (limit : ℕ) (streams : Streams) (id : FlowId) (header : Tcp) (payload : Bytes)
    → All (λ _ s. IsBounded limit s) streams
    → All (λ _ s. IsBounded limit s) (process limit streams id header payload).0
unfolding process
process-IsBounded limit streams id header payload a =
    All-insert (λ _ s. IsBounded limit s) id _ streams
      (process_stream-IsBounded limit _ header payload (stream_of-IsBounded limit streams id a)) a
