-- ===== src/Decode/Session/Effects.antt =====
-- What one packet does to the state of `PacketDecoder` of src/decoder.cpp.
use fdpi.Decode.Session.{
  Layer4, Config, Decoder, Packet, Result, decoded, failed, is_returned, plain, inspect, look_into,
  follow_up, decode,
}
use fdpi.Base.{
  if-elim, subst, ℕ, ◌≡◌, refl, Bool, not, ◌&&◌, Option, none, some, length, ◌==◌, arith,
}
use fdpi.Wire.{Bytes, Error, Outcome, ok, err, fault}
use fdpi.Flow.{AppProtocol, FlowId, flow_id_eq}
use fdpi.Flow.Table.{update}
use fdpi.Link.{DataLinkType}
use fdpi.Decode.Layers.{Follow, returned, counted, inspected, lower_layers, higher_layers}

-- What holds of a call's result, if it has one.
pub data Each {A : Type 0} (P : A → Type 0) : Option A → Type 0 where
  nothing : Each P none
  each : {a : A} → P a → Each P (some a)

pub Each-of : {A : Type 0} {P : A → Type 0} {m : Option A} (a : A) → m ≡ some a → Each P m → P a
Each-of a e nothing = absurd cc
Each-of {P} a e (each p) = subst P (some-injective e) p
  where
    some-injective : {A : Type 0} {a b : A} → some a ≡ some b → a ≡ b
    some-injective q = cc

pub Each-elim :
    {A B : Type 0} {Q : B → Type 0} (m : Option A) {f : A → Option B}
    → ((a : A) → Each Q (f a))
    → Each Q (elim m [ none ↦ none | some a ↦ f a ])
Each-elim none g = nothing
Each-elim (some a) g = g a

pub Each-outcome :
    {A B : Type 0} {Q : B → Type 0} (m : Outcome A) {f : A → ℕ → Option B}
    → {g : Error → ℕ → Option B} → ((a : A) (o : ℕ) → Each Q (f a o))
    → ((e : Error) (o : ℕ) → Each Q (g e o))
    → Each Q (elim m [ fault ↦ none | err e o ↦ g e o | ok a o ↦ f a o ])
Each-outcome (ok a o) f g = f a o
Each-outcome (err e o) f g = g e o
Each-outcome fault f g = nothing

pub Each-any : {A : Type 0} {P : A → Type 0} (m : Option A) → ((a : A) → P a) → Each P m
Each-any none g = nothing
Each-any (some a) g = each (g a)

pub Each-map :
    {A B : Type 0} {P : A → Type 0} {Q : B → Type 0} {m : Option A} {f : A → Option B}
    → Each P m
    → ((a : A) → P a → Each Q (f a))
    → Each Q (elim m [ none ↦ none | some a ↦ f a ])
Each-map nothing g = nothing
Each-map (each p) g = g _ p

pub decoded-injective :
    {App : Type 0} {a p : Packet App} → ◌≡◌ {A = Result App} (decoded a) (decoded p) → a ≡ p
decoded-injective e = cc

module _ {App S : Type 0}
    (decode_l7 : S → Layer4 → FlowId → AppProtocol → Bytes → Option (S × Option (App × ℕ)))
    (config : Config) where
  -- A packet that is refused changes nothing but the fragments that are stored: not the flow table,
  -- not a stream, not what was detected, not the state of a protocol's decoder.
  pub decode-failed :
      (d d' : Decoder S) (timestamp : ℕ) (dlt : DataLinkType) (data' : Bytes) (e : Error)
      → decode decode_l7 config d timestamp dlt data' ≡ some (d', failed e)
      → d' ≡ record d { groups = d'.groups }
  unfolding decode
  decode-failed d d' timestamp dlt data' e h =
      Each-of {P = P} (d', failed e) h
        (Each-outcome (lower_layers config.enable_defragmentation d.groups dlt data')
          (λ l o.
            Each-outcome (higher_layers l.0 l.2 l.1 data' o)
              (λ layers _.
                Each-elim
                  (follow_up decode_l7 config (record d { groups = l.2 })
                    (plain timestamp dlt data' layers) layers.follow)
                  λ r. each λ e' k. absurd cc)
              λ _ _. each λ _ _. refl)
          λ _ _. each λ _ _. refl)
        e refl
    where
      P : Decoder S × Result App → Type 0
      P r = (e : Error) → r.1 ≡ failed e → r.0 ≡ record d { groups = r.0.groups }

  -- What a packet without data leaves alone.
  abbrev IsIdle : Decoder S → Decoder S × Packet App → Type 0
  IsIdle d r =
      length r.1.layers.payload ≡ 0 → (r.0.l7_streams ≡ d.l7_streams) × (r.0.streams ≡ d.streams)

  look_into-IsIdle :
      (d : Decoder S) (packet : Packet App) (follow : Follow)
      → Each (IsIdle d) (look_into decode_l7 config d packet follow)
  unfolding look_into inspect
  look_into-IsIdle d packet returned = each λ _. (refl, refl)
  look_into-IsIdle d packet counted = each λ _. (refl, refl)
  look_into-IsIdle d packet inspected =
      Each-map {P = P}
        (if-elim (Each P)
          (config.enable_protocol_detection && not (length packet.layers.payload == 0))
          (λ some_data. Each-any _ λ _ e. absurd (ground arith)) λ _. each λ _. (refl, refl))
        λ _ p. each p
    where
      P : Decoder S × Bool × Option App → Type 0
      P r =
          length packet.layers.payload ≡ 0
          → (r.0.l7_streams ≡ d.l7_streams) × (r.0.streams ≡ d.streams)

  follow_up-IsIdle :
      (d : Decoder S) (packet : Packet App) (follow : Follow)
      → Each (IsIdle d) (follow_up decode_l7 config d packet follow)
  unfolding follow_up
  follow_up-IsIdle d packet follow =
      if-elim (Each (IsIdle d)) (is_returned follow) (λ _. each λ _. (refl, refl))
        λ _.
          Each-elim (update config.flow_table d.flows _)
            λ r. look_into-IsIdle (record d { flows = r.0 }) packet follow

  -- A packet without data leaves every stream as it was, in reassembly and for its protocol, even
  -- if its header has FIN or RST.
  pub decode-no_data :
      (d d' : Decoder S) (timestamp : ℕ) (dlt : DataLinkType) (data' : Bytes) (packet : Packet App)
      → decode decode_l7 config d timestamp dlt data' ≡ some (d', decoded packet)
      → length packet.layers.payload ≡ 0
      → (d'.l7_streams ≡ d.l7_streams) × (d'.streams ≡ d.streams)
  unfolding decode
  decode-no_data d d' timestamp dlt data' packet h =
      Each-of {P = P} (d', decoded packet) h
        (Each-outcome (lower_layers config.enable_defragmentation d.groups dlt data')
          (λ l o.
            Each-outcome (higher_layers l.0 l.2 l.1 data' o)
              (λ layers _.
                Each-map
                  (follow_up-IsIdle (record d { groups = l.2 }) (plain timestamp dlt data' layers)
                    layers.follow)
                  λ r idle. each λ p e. subst (λ p. IsIdle d (r.0, p)) (decoded-injective e) idle)
              λ _ _. each λ _ e. absurd cc)
          λ _ _. each λ _ e. absurd cc)
        packet refl
    where
      P : Decoder S × Result App → Type 0
      P r = (p : Packet App) → r.1 ≡ decoded p → IsIdle d (r.0, p)
