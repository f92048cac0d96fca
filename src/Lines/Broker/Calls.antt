-- ===== src/Lines/Broker/Calls.antt =====
-- The calls of `PaperBroker` that reach the venue (src/lines/paper_broker.cpp).
use toy_quant_v.Base.{
  ℕ, true, false, not, ◌&&◌, ◌||◌, List, [], ◌∷◌, ◌++◌, none, some, ltb, leb, ◌==◌, if◌then◌else◌,
  add64, length,
}
use toy_quant_v.Common.Types.{BboQuote, MarketTrade}
use toy_quant_v.Common.Float.{Float}
use toy_quant_v.Exchange.Order.{Order, ExecutionReport}
use toy_quant_v.Exchange.Venue.{MatchingEngine, OrderQuery}
use toy_quant_v.Lines.Broker.{
  PaperBroker, falls_on, forward, take_reports, find_held, erase_held, held_cancelled,
}

module _ {F V : Type 0} ⦃fl : Float F⦄ ⦃me : MatchingEngine F V⦄ where
  abbrev pub pass_on : Order F → PaperBroker F V → PaperBroker F V × List (ExecutionReport F)
  pass_on o b = take_reports b (me.send_order o b.venue)

  unfoldable pub send_all :
      List (Order F) → PaperBroker F V → PaperBroker F V × List (ExecutionReport F)
  send_all [] b = (b, [])
  send_all (o ∷ os) b =
      let (b1, told) = pass_on o b in let (b2, later) = send_all os b1 in (b2, told ++ later)

  unfoldable pub release_held : PaperBroker F V → PaperBroker F V × List (ExecutionReport F)
  release_held b = send_all b.held (record b {
    held = [];
    summary = record b.summary {
      orders_released = add64 b.summary.orders_released (length b.held);
    };
    held_since_outage = 0;
  })

  -- The outage that starts with this order, if one does.
  unfoldable pub start_outage : PaperBroker F V → PaperBroker F V
  start_outage b =
      if not b.outage_seen
        && ltb 0 b.faults.outage_after
        && leb b.faults.outage_after b.accepted_orders
      then record b {
        outage_active = true;
        outage_seen = true;
        summary = record b.summary { outages = add64 b.summary.outages 1 };
      }
      else b

  -- An order that was neither refused nor held.
  unfoldable pub accept : Order F → PaperBroker F V → PaperBroker F V × List (ExecutionReport F)
  accept o b = pass_on o (record b { accepted_orders = add64 b.accepted_orders 1 })

  unfoldable pub hold : Order F → PaperBroker F V → PaperBroker F V
  hold o b = record b {
    held = b.held ++ o ∷ [];
    held_since_outage = add64 b.held_since_outage 1;
    summary = record b.summary { orders_held = add64 b.summary.orders_held 1 };
  }

  unfoldable pub send_order : Order F → PaperBroker F V → PaperBroker F V × List (ExecutionReport F)
  send_order o b =
      let n = add64 b.summary.orders_submitted 1 in
      let counted = record b { summary = record b.summary { orders_submitted = n } } in
      let refused = record counted {
        summary = record counted.summary { orders_rejected = add64 b.summary.orders_rejected 1 };
        broker_rejects = add64 b.broker_rejects 1;
      } in
      let b1 = start_outage counted in
      let (b2, released) = release_held (record b1 { outage_active = false }) in
      let (b3, told) = accept o b2 in
      if falls_on b.faults.reject_every n
      then (refused, [])
      else if not b1.outage_active
      then accept o b1
      else if b1.faults.outage_holds == 0 || ltb b1.held_since_outage b1.faults.outage_holds
      then (hold o b1, [])
      else (b3, released ++ told)

  unfoldable pub cancel_order : ℕ → PaperBroker F V → PaperBroker F V × List (ExecutionReport F)
  cancel_order id b = elim (find_held id b.held) [
    | none ↦ take_reports b (me.cancel_order id b.venue)
    | some o ↦
        let r = held_cancelled fl.f_zero o in
        let without = record b {
          held = erase_held id b.held;
          summary = record b.summary { cancels_while_held = add64 b.summary.cancels_while_held 1 };
        } in
        (forward r without, r ∷ [])
  ]

  unfoldable pub process_bbo :
      BboQuote F → PaperBroker F V → PaperBroker F V × List (ExecutionReport F)
  process_bbo q b = take_reports b (me.process_bbo q b.venue)

  unfoldable pub process_l2_top :
      BboQuote F → PaperBroker F V → PaperBroker F V × List (ExecutionReport F)
  process_l2_top q b = take_reports b (me.process_l2_top q b.venue)

  unfoldable pub process_market_trade :
      MarketTrade F → PaperBroker F V → PaperBroker F V × List (ExecutionReport F)
  process_market_trade t b = take_reports b (me.process_market_trade t b.venue)

  unfoldable pub rejected_orders : PaperBroker F V → ℕ
  rejected_orders b = add64 (me.rejected_orders b.venue) b.broker_rejects

  unfoldable pub query_order : ℕ → PaperBroker F V → OrderQuery
  query_order id b = elim (find_held id b.held) [
    | none ↦ me.query_order id b.venue
    | some o ↦ OrderQuery.working
  ]

  -- The broker is a venue for what stands before it.
  abbrev pub broker_venue : MatchingEngine F (PaperBroker F V)
  broker_venue = record {
    send_order = send_order;
    process_bbo = process_bbo;
    process_l2_top = process_l2_top;
    process_market_trade = process_market_trade;
    cancel_order = cancel_order;
    rejected_orders = rejected_orders;
    query_order = query_order;
  }
