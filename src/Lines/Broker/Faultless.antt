-- ===== src/Lines/Broker/Faultless.antt =====
-- The broker of src/lines/paper_broker.cpp without faults, against the venue that it wraps.
use toy_quant_v.Base.{◌≡◌, refl, ap, ◌∙◌, false, List, [], ◌∷◌, ◌++◌, arith, add64}
use toy_quant_v.Common.Float.{Float}
use toy_quant_v.Exchange.Order.{ExecutionReport}
use toy_quant_v.Exchange.Venue.{MatchingEngine}
use toy_quant_v.Lines.Gateway.Transparent.{
  Call, send, cancel, bbo, top, trade, venue_call, venue_calls,
}
use toy_quant_v.Lines.Broker.{
  PaperBroker, forward, record_execution, on_venue_report, on_venue_reports, find_held,
}
use toy_quant_v.Lines.Broker.Calls.{
  broker_venue, send_order, cancel_order, process_bbo, process_l2_top, process_market_trade, accept,
  start_outage,
}

module _ {F V : Type 0} where
  -- A broker that refuses, splits, drops and holds nothing.
  abbrev pub IsFaultless : PaperBroker F V → Type 0
  IsFaultless b =
      (b.faults ≡ record {
        reject_every = 0;
        partial_every = 0;
        drop_every = 0;
        outage_after = 0;
        outage_holds = 0;
      })
      × (b.held ≡ [])
      × (b.outage_active ≡ false)

module _ {F V : Type 0} ⦃fl : Float F⦄ where
  abbrev Passes :
      List (ExecutionReport F)
      → PaperBroker F V
      → PaperBroker F V × List (ExecutionReport F)
      → Type 0
  Passes rs b (b', told) = (b'.venue ≡ b.venue) × IsFaultless b' × (told ≡ rs)

  on_venue_report-Passes :
      (r : ExecutionReport F) (b : PaperBroker F V)
      → IsFaultless b
      → Passes (r ∷ []) b (on_venue_report r b)
  unfolding on_venue_report record_execution forward
  on_venue_report-Passes r b h = ground (arith, h)

  on_venue_reports-Passes :
      (rs : List (ExecutionReport F)) (b : PaperBroker F V)
      → IsFaultless b
      → Passes rs b (on_venue_reports rs b)
  unfolding on_venue_reports
  on_venue_reports-Passes [] b h = (refl, h, refl)
  on_venue_reports-Passes (r ∷ rs) b h =
      let (b1, told) = on_venue_report r b in
      let (v1, f1, t1) = on_venue_report-Passes r b h in
      let (v2, f2, t2) = on_venue_reports-Passes rs b1 f1 in
      (v2 ∙ v1, f2, ap (λ xs. xs ++ (on_venue_reports rs b1).1) t1 ∙ ap (λ xs. r ∷ xs) t2)

module _ {F V : Type 0} ⦃fl : Float F⦄ ⦃me : MatchingEngine F V⦄ where
  abbrev SameCall : Call F → PaperBroker F V → Type 0
  SameCall c b =
      let (b', told) = venue_call ⦃me = broker_venue⦄ c b in
      let (v, rs) = venue_call c b.venue in (b'.venue ≡ v) × IsFaultless b' × (told ≡ rs)

  venue_call-SameCall : (c : Call F) (b : PaperBroker F V) → IsFaultless b → SameCall c b
  unfolding send_order cancel_order process_bbo process_l2_top process_market_trade accept
      start_outage find_held
  venue_call-SameCall (send o) b h =
      let (v, rs) = me.send_order o b.venue in
      let counted = record b.summary { orders_submitted = add64 b.summary.orders_submitted 1 } in
      let taken = record b {
        venue = v;
        summary = counted;
        accepted_orders = add64 b.accepted_orders 1;
      } in
      ground (arith, h, on_venue_reports-Passes rs taken h)
  venue_call-SameCall (cancel id) b h =
      let (v, rs) = me.cancel_order id b.venue in
      ground (arith, h, on_venue_reports-Passes rs (record b { venue = v }) h)
  venue_call-SameCall (bbo q) b h =
      let (v, rs) = me.process_bbo q b.venue in
      on_venue_reports-Passes rs (record b { venue = v }) h
  venue_call-SameCall (top q) b h =
      let (v, rs) = me.process_l2_top q b.venue in
      on_venue_reports-Passes rs (record b { venue = v }) h
  venue_call-SameCall (trade t) b h =
      let (v, rs) = me.process_market_trade t b.venue in
      on_venue_reports-Passes rs (record b { venue = v }) h

  -- With every fault at zero the broker is the venue: for any calls the venue behind it ends as it would
  -- without it, and the consumer gets the same reports in the same order.
  pub broker_venue-venue :
      (cs : List (Call F)) (b : PaperBroker F V)
      → IsFaultless b
      → ((venue_calls ⦃me = broker_venue⦄ cs b).0.venue ≡ (venue_calls cs b.venue).0)
        × ((venue_calls ⦃me = broker_venue⦄ cs b).1 ≡ (venue_calls cs b.venue).1)
  broker_venue-venue [] b h = (refl, refl)
  broker_venue-venue (c ∷ cs) b h =
      let (b', told) = venue_call ⦃me = broker_venue⦄ c b in
      let (v1, f1, t1) = venue_call-SameCall c b h in
      let (v2, t2) = broker_venue-venue cs b' f1 in
      let onward : V → V × List (ExecutionReport F) = venue_calls cs in
      (
        v2 ∙ ap (λ v. (onward v).0) v1,
        ap (λ xs. xs ++ (venue_calls ⦃me = broker_venue⦄ cs b').1) t1
            ∙ ap (λ xs. (venue_call c b.venue).1 ++ xs) (t2 ∙ ap (λ v. (onward v).1) v1),
      )
