-- ===== src/Lines/Broker/Counts.antt =====
-- The counts that src/lines/paper_broker.cpp keeps of its orders.
use toy_quant_v.Base.{
  ℕ, ◌+◌, ◌%◌, ◌≡◌, refl, ◌∙◌, false, List, [], ◌∷◌, ◌++◌, some, arith, add64, u64_mod, length,
  Option-cases, inl, inr,
}
use toy_quant_v.Common.Float.{Float}
use toy_quant_v.Exchange.Order.{Order, ExecutionReport}
use toy_quant_v.Exchange.Venue.{MatchingEngine}
use toy_quant_v.Lines.Gateway.Transparent.{
  Call, send, cancel, bbo, top, trade, venue_call, venue_calls,
}
use toy_quant_v.Lines.Broker.{
  PaperBroker, forward, record_execution, on_venue_report, on_venue_reports, find_held, erase_held,
}
use toy_quant_v.Lines.Broker.Calls.{
  broker_venue, send_order, cancel_order, process_bbo, process_l2_top, process_market_trade, accept,
  start_outage, hold, release_held, send_all,
}

module _ {F : Type 0} where
  length-hold : (o : Order F) (os : List (Order F)) → length (os ++ o ∷ []) ≡ length os + 1
  length-hold o [] = refl
  length-hold o (x ∷ os) = ground (arith, length-hold o os)

  length-erase_held :
      (id : ℕ) (o : Order F) (os : List (Order F))
      → find_held id os ≡ some o
      → length (erase_held id os) + 1 ≡ length os
  unfolding find_held erase_held
  length-erase_held id o [] h = ground arith
  length-erase_held id o (x ∷ os) h = ground (arith, length-erase_held id o os)

module _ {F V : Type 0} where
  -- The orders that were refused, given to the venue at once, given to it after an outage, cancelled while
  -- held, and still held.
  abbrev pub placed : PaperBroker F V → ℕ
  placed b =
      b.summary.orders_rejected
      + b.accepted_orders
      + b.summary.orders_released
      + b.summary.cancels_while_held
      + length b.held

  abbrev pub Placed : PaperBroker F V → Type 0
  Placed b = b.summary.orders_submitted % u64_mod ≡ placed b % u64_mod

  -- What no report changes.
  abbrev Same : PaperBroker F V → PaperBroker F V → Type 0
  Same b' b =
      (placed b' ≡ placed b)
      × (b'.summary.orders_submitted ≡ b.summary.orders_submitted)
      × (b'.held ≡ b.held)

module _ {F V : Type 0} ⦃fl : Float F⦄ where
  on_venue_report-Same :
      (r : ExecutionReport F) (b : PaperBroker F V) → Same (on_venue_report r b).0 b
  unfolding on_venue_report record_execution forward
  on_venue_report-Same r b = ground arith

  on_venue_reports-Same :
      (rs : List (ExecutionReport F)) (b : PaperBroker F V) → Same (on_venue_reports rs b).0 b
  unfolding on_venue_reports
  on_venue_reports-Same [] b = (refl, refl, refl)
  on_venue_reports-Same (r ∷ rs) b =
      let (b1, told) = on_venue_report r b in
      let (p1, s1, h1) = on_venue_report-Same r b in
      let (p2, s2, h2) = on_venue_reports-Same rs b1 in (p2 ∙ p1, s2 ∙ s1, h2 ∙ h1)

module _ {F V : Type 0} ⦃fl : Float F⦄ ⦃me : MatchingEngine F V⦄ where
  send_all-Same : (os : List (Order F)) (b : PaperBroker F V) → Same (send_all os b).0 b
  unfolding send_all
  send_all-Same [] b = (refl, refl, refl)
  send_all-Same (o ∷ os) b =
      let (v, rs) = me.send_order o b.venue in
      let (b1, told) = on_venue_reports rs (record b { venue = v }) in
      let (p1, s1, h1) = on_venue_reports-Same rs (record b { venue = v }) in
      let (p2, s2, h2) = send_all-Same os b1 in (p2 ∙ p1, s2 ∙ s1, h2 ∙ h1)

  accept-one :
      (o : Order F) (b : PaperBroker F V)
      → (placed (accept o b).0 % u64_mod ≡ (placed b + 1) % u64_mod)
        × ((accept o b).0.summary.orders_submitted ≡ b.summary.orders_submitted)
  unfolding accept add64
  accept-one o b =
      let (v, rs) = me.send_order o b.venue in
      let taken = record b { venue = v; accepted_orders = add64 b.accepted_orders 1 } in
      ground (arith, on_venue_reports-Same rs taken)

  release_held-placed :
      (b : PaperBroker F V)
      → (placed (release_held b).0 % u64_mod ≡ placed b % u64_mod)
        × ((release_held b).0.summary.orders_submitted ≡ b.summary.orders_submitted)
  unfolding release_held add64
  release_held-placed b =
      let emptied = record b {
        held = [];
        summary = record b.summary {
          orders_released = add64 b.summary.orders_released (length b.held);
        };
        held_since_outage = 0;
      } in
      ground (arith, send_all-Same b.held emptied)

  start_outage-Same : (b : PaperBroker F V) → Same (start_outage b) b
  unfolding start_outage
  start_outage-Same b = ground arith

  send_order-Placed : (o : Order F) (b : PaperBroker F V) → Placed b → Placed (send_order o b).0
  unfolding send_order hold add64
  send_order-Placed o b h =
      let n = add64 b.summary.orders_submitted 1 in
      let counted = record b { summary = record b.summary { orders_submitted = n } } in
      let b1 = start_outage counted in
      let back = record b1 { outage_active = false } in
      ground (
        arith,
        h,
        start_outage-Same counted,
        length-hold o b1.held,
        accept-one o b1,
        release_held-placed back,
        accept-one o (release_held back).0,
      )

  cancel_order-Placed : (id : ℕ) (b : PaperBroker F V) → Placed b → Placed (cancel_order id b).0
  unfolding cancel_order forward add64
  cancel_order-Placed id b h =
      let (v, rs) = me.cancel_order id b.venue in
      elim (Option-cases (find_held id b.held)) [
        | inl unheld ↦ ground (arith, h, on_venue_reports-Same rs (record b { venue = v }))
        | inr (o, is) ↦ ground (arith, h, length-erase_held id o b.held is)
      ]

  venue_call-Placed :
      (c : Call F) (b : PaperBroker F V) → Placed b → Placed (venue_call ⦃me = broker_venue⦄ c b).0
  unfolding process_bbo process_l2_top process_market_trade
  venue_call-Placed (send o) b h = send_order-Placed o b h
  venue_call-Placed (cancel id) b h = cancel_order-Placed id b h
  venue_call-Placed (bbo q) b h =
      let (v, rs) = me.process_bbo q b.venue in
      ground (arith, h, on_venue_reports-Same rs (record b { venue = v }))
  venue_call-Placed (top q) b h =
      let (v, rs) = me.process_l2_top q b.venue in
      ground (arith, h, on_venue_reports-Same rs (record b { venue = v }))
  venue_call-Placed (trade t) b h =
      let (v, rs) = me.process_market_trade t b.venue in
      ground (arith, h, on_venue_reports-Same rs (record b { venue = v }))

  pub venue_calls-Placed :
      (cs : List (Call F)) (b : PaperBroker F V)
      → Placed b
      → Placed (venue_calls ⦃me = broker_venue⦄ cs b).0
  venue_calls-Placed [] b h = h
  venue_calls-Placed (c ∷ cs) b h =
      venue_calls-Placed cs (venue_call ⦃me = broker_venue⦄ c b).0 (venue_call-Placed c b h)
