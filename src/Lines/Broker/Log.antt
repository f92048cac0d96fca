-- ===== src/Lines/Broker/Log.antt =====
-- What src/lines/paper_broker.cpp gives to the venue, in a list beside it.
use toy_quant_v.Base.{
  ℕ, ◌≡◌, ◌⊎◌, refl, sym, ap, ◌∙◌, false, List, [], ◌∷◌, ◌++◌, arith, add64, length, append_assoc,
  append-nil,
}
use toy_quant_v.Common.Float.{Float}
use toy_quant_v.Exchange.Order.{Order, ExecutionReport}
use toy_quant_v.Exchange.Venue.{MatchingEngine}
use toy_quant_v.Lines.Broker.{
  PaperBroker, forward, record_execution, on_venue_report, on_venue_reports, erase_held,
}
use toy_quant_v.Lines.Broker.Calls.{cancel_order, accept, start_outage, release_held, send_all}
use toy_quant_v.Lines.Broker.Flow.{Flow}

-- A venue that also lists the orders it is given, the newest last.
abbrev pub logged : {F V : Type 0} → MatchingEngine F V → MatchingEngine F (V × List (Order F))
logged me = record {
  send_order = λ o (v, log). let (v', rs) = me.send_order o v in ((v', log ++ o ∷ []), rs);
  process_bbo = λ q (v, log). let (v', rs) = me.process_bbo q v in ((v', log), rs);
  process_l2_top = λ q (v, log). let (v', rs) = me.process_l2_top q v in ((v', log), rs);
  process_market_trade =
      λ t (v, log). let (v', rs) = me.process_market_trade t v in ((v', log), rs);
  cancel_order = λ id (v, log). let (v', rs) = me.cancel_order id v in ((v', log), rs);
  rejected_orders = λ (v, log). me.rejected_orders v;
  query_order = λ id (v, log). me.query_order id v;
}

module _ {F V : Type 0} where
  abbrev pub flow : PaperBroker F (V × List (Order F)) → Flow F
  flow b = record {
    log = b.venue.1;
    held = b.held;
    outage = b.outage_active;
    accepted = b.accepted_orders;
    released = b.summary.orders_released;
    count = b.summary.orders_submitted;
  }

module _ {F V : Type 0} ⦃fl : Float F⦄ where
  flow-on_venue_report :
      (r : ExecutionReport F) (b : PaperBroker F (V × List (Order F)))
      → flow (on_venue_report r b).0 ≡ flow b
  unfolding on_venue_report record_execution forward
  flow-on_venue_report r b = ground arith

  pub flow-on_venue_reports :
      (rs : List (ExecutionReport F)) (b : PaperBroker F (V × List (Order F)))
      → flow (on_venue_reports rs b).0 ≡ flow b
  unfolding on_venue_reports
  flow-on_venue_reports [] b = refl
  flow-on_venue_reports (r ∷ rs) b =
      flow-on_venue_reports rs (on_venue_report r b).0 ∙ flow-on_venue_report r b

module _ {F V : Type 0} ⦃fl : Float F⦄ (me : MatchingEngine F V) where
  flow-send_all :
      (os : List (Order F)) (b : PaperBroker F (V × List (Order F)))
      → flow (send_all ⦃me = logged me⦄ os b).0 ≡ record (flow b) { log = b.venue.1 ++ os }
  unfolding send_all
  flow-send_all [] b = ap (λ xs. record (flow b) { log = xs }) (sym (append-nil b.venue.1))
  flow-send_all (o ∷ os) b =
      let (v, rs) = (logged me).send_order o b.venue in
      let sent = record b { venue = v } in
      let told = flow-on_venue_reports rs sent in
      let later = flow-send_all os (on_venue_reports rs sent).0 in
      later
      ∙ ap (λ (w : Flow F). record w { log = w.log ++ os }) told
      ∙ ap (λ xs. record (flow b) { log = xs }) (append_assoc b.venue.1 (o ∷ []) os)

  pub flow-accept :
      (o : Order F) (b : PaperBroker F (V × List (Order F)))
      → flow (accept ⦃me = logged me⦄ o b).0
        ≡ record (flow b) { log = b.venue.1 ++ o ∷ []; accepted = add64 b.accepted_orders 1 }
  unfolding accept
  flow-accept o b =
      let (v, rs) = (logged me).send_order o b.venue in
      flow-on_venue_reports rs (record b { accepted_orders = add64 b.accepted_orders 1; venue = v })

  pub flow-release_held :
      (b : PaperBroker F (V × List (Order F)))
      → flow (release_held ⦃me = logged me⦄ b).0 ≡ record (flow b) {
        log = b.venue.1 ++ b.held;
        held = [];
        released = add64 b.summary.orders_released (length b.held);
      }
  unfolding release_held
  flow-release_held b = flow-send_all b.held (record b {
    held = [];
    summary = record b.summary {
      orders_released = add64 b.summary.orders_released (length b.held);
    };
    held_since_outage = 0;
  })

  pub flow-start_outage :
      (b : PaperBroker F (V × List (Order F)))
      → (flow (start_outage ⦃me = logged me⦄ b)
          ≡ record (flow b) { outage = (start_outage ⦃me = logged me⦄ b).outage_active })
        × ((start_outage ⦃me = logged me⦄ b).outage_active ≡ false → b.outage_active ≡ false)
  unfolding start_outage
  flow-start_outage b = ground arith

  pub flow-cancel_order :
      (id : ℕ) (b : PaperBroker F (V × List (Order F)))
      → (flow (cancel_order ⦃me = logged me⦄ id b).0 ≡ flow b)
        ⊎ (flow (cancel_order ⦃me = logged me⦄ id b).0
            ≡ record (flow b) { held = erase_held id b.held })
  unfolding cancel_order forward
  flow-cancel_order id b =
      let (v, rs) = (logged me).cancel_order id b.venue in
      ground (arith, flow-on_venue_reports rs (record b { venue = v }))
