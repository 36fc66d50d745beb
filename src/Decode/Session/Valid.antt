-- ===== src/Decode/Session/Valid.antt =====
-- What `PacketDecoder::decode` of src/decoder.cpp keeps of the decoder's tables.
use fdpi.Decode.Session.{
  Layer4, Config, Decoder, Packet, Result, is_returned, plain, follow_up, decode,
}
use fdpi.Base.{ℕ, ◌<◌, ◌≡◌, refl, sym, subst, Option, none, some, ◌⊎◌, inl, inr}
use fdpi.Wire.{Bytes}
use fdpi.Flow.{AppProtocol, FlowId, flow_id_eq}
use fdpi.Flow.Table.{Flows, FlowTableConfig, Seen, update}
use fdpi.Flow.Table.Update.{update-Updated}
use fdpi.Link.{DataLinkType}
use fdpi.Decode.Layers.{Follow}
use fdpi.Decode.Bounds.Layers.{IsCaptured, lower_layers-Bounded, higher_layers-Bounded}
use fdpi.Decode.Session.Gives.{Gives, gives, gives_none, Gives-elim, Gives-if, Gives-outcome}
use fdpi.Decode.Session.Kept.{IsValid, Unreturned, look_into-Gives}

module _ {App S : Type 0}
    (decode_l7 : S → Layer4 → FlowId → AppProtocol → Bytes → Option (S × Option (App × ℕ)))
    (config : Config) where
  update-Gives :
      (flows : Flows) (seen : Seen)
      → 0 < config.flow_table.max_flows
      → fdpi.Flow.Table.Update.IsValid config.flow_table flows
      → Gives
          (Unreturned decode_l7)
          (λ r. fdpi.Flow.Table.Update.IsValid config.flow_table r.0)
          (update config.flow_table flows seen)
  update-Gives flows seen pos v =
      let (flows', meta', u) = update-Updated config.flow_table flows seen pos v in
      subst
        (Gives (Unreturned decode_l7) (λ r. fdpi.Flow.Table.Update.IsValid config.flow_table r.0))
        (sym u.computed) (gives u.valid)

  follow_up-Gives :
      (d : Decoder S) (packet : Packet App) (follow : Follow)
      → 0 < config.flow_table.max_flows
      → IsValid config d
      → Gives
          (Unreturned decode_l7)
          (λ r. IsValid config r.0)
          (follow_up decode_l7 config d packet follow)
  unfolding follow_up
  follow_up-Gives d packet follow pos v =
      Gives-if (is_returned follow) (λ _. gives v)
        λ _. Gives-elim (update-Gives d.flows _ pos v.flows) λ r w.
          look_into-Gives decode_l7 config (record d { flows = r.0 }) packet follow
            (record { flows = w; streams = v.streams; l7_streams = v.l7_streams })

  decode-Gives :
      (d : Decoder S) (timestamp : ℕ) (dlt : DataLinkType) (data' : Bytes)
      → 0 < config.flow_table.max_flows
      → IsCaptured data'
      → IsValid config d
      → Gives
          (Unreturned decode_l7)
          (λ r. IsValid config r.0)
          (decode decode_l7 config d timestamp dlt data')
  unfolding decode
  decode-Gives d timestamp dlt data' pos c v =
      Gives-outcome (lower_layers-Bounded config.enable_defragmentation d.groups data' c dlt)
        (λ l o u.
          let w : IsValid config (record d { groups = l.2 }) = record {
            flows = v.flows;
            streams = v.streams;
            l7_streams = v.l7_streams;
          } in
          Gives-outcome (higher_layers-Bounded data' l.0 l.2 l.1 o u)
            (λ layers _ _.
              Gives-elim
                (follow_up-Gives (record d { groups = l.2 }) (plain timestamp dlt data' layers)
                  layers.follow pos w)
                λ _ w'. gives w')
            λ e _. gives w)
        λ e _. gives v

  -- A valid decoder decodes every buffer without a read outside it, whether the packet is decoded
  -- or refused, if every IPv4 fragment in the buffer is there in full and the flow table has room
  -- for at least one flow, unless the decoder of an application protocol does not return, and is valid
  -- afterwards.
  pub decode-IsValid :
      (d : Decoder S) (timestamp : ℕ) (dlt : DataLinkType) (data' : Bytes)
      → 0 < config.flow_table.max_flows
      → IsCaptured data'
      → IsValid config d
      → ((d' : Decoder S) × (result : Result App) × (decode decode_l7 config d timestamp dlt data'
            ≡ some (d', result))
          × IsValid config d')
        ⊎ ((decode decode_l7 config d timestamp dlt data' ≡ none) × Unreturned decode_l7)
  decode-IsValid d timestamp dlt data' pos c v = of (decode-Gives d timestamp dlt data' pos c v)
    where
      of :
          {m : Option (Decoder S × Result App)}
          → Gives (Unreturned decode_l7) (λ r. IsValid config r.0) m
          → ((d' : Decoder S) × (result : Result App) × (m ≡ some (d', result)) × IsValid config d')
            ⊎ ((m ≡ none) × Unreturned decode_l7)
      of (gives {a} w) = inl (a.0, a.1, refl, w)
      of (gives_none r) = inr (refl, r)
