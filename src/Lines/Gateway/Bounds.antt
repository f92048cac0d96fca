-- ===== src/Lines/Gateway/Bounds.antt =====
-- The counters of `GatewaySummary` (src/lines/order_gateway.h) after any calls.
use toy_quant_v.Base.{ℕ, ◌+◌, ◌≤◌, ◌<◌, ◌≡◌, refl, List, [], ◌∷◌, arith, u64_mod, add64}
use toy_quant_v.Exchange.Order.{ExecutionReport}
use toy_quant_v.Exchange.Venue.{MatchingEngine}
use toy_quant_v.Lines.Gateway.{
  OrderGateway, on_venue_report, on_venue_reports, refresh_unacknowledged, count_unanswered,
  take_reports, new_gateway,
}
use toy_quant_v.Lines.Gateway.Calls.{
  send_order, cancel_order, process_bbo, process_l2_top, process_market_trade, sweep_timeouts,
}
use toy_quant_v.Lines.Gateway.History.{Run, start, sent, cancelled, quoted, topped, traded}
use toy_quant_v.Lines.Gateway.Tally.{tally}
use toy_quant_v.Lines.Gateway.Sweep.{Kept, sweep_timeouts-Kept, take_reports-Kept, send_order-Kept}

module _ {F V : Type 0} ⦃me : MatchingEngine F V⦄ where
  cancel_order-Kept :
      (n id : ℕ) (g : OrderGateway F V) → n < u64_mod → Kept n g → Kept n (cancel_order id g).0
  unfolding cancel_order
  cancel_order-Kept n id g h k =
      let answer = me.cancel_order id g.venue in
      ground (
        arith,
        take_reports-Kept n
            (record g { summary = record g.summary { cancels = add64 g.summary.cancels 1 } }) answer
            h k,
        k,
      )

  Run-Kept : (g : OrderGateway F V) (n : ℕ) → Run g n → n < u64_mod → Kept n g
  unfolding new_gateway tally process_bbo process_l2_top process_market_trade
  Run-Kept _ _ (start config v) h = ground arith
  Run-Kept _ _ (sent {g} {n} o run) h = send_order-Kept n o g h (Run-Kept g n run (omega arith))
  Run-Kept _ _ (cancelled {g} {n} id run) h = cancel_order-Kept n id g h (Run-Kept g n run h)
  Run-Kept _ _ (quoted {g} {n} q run) h =
      let answer = me.process_bbo q g.venue in
      sweep_timeouts-Kept n q.ts (take_reports g answer) h
        (take_reports-Kept n g answer h (Run-Kept g n run h))
  Run-Kept _ _ (topped {g} {n} q run) h =
      let answer = me.process_l2_top q g.venue in
      sweep_timeouts-Kept n q.ts (take_reports g answer) h
        (take_reports-Kept n g answer h (Run-Kept g n run h))
  Run-Kept _ _ (traded {g} {n} t run) h =
      let answer = me.process_market_trade t g.venue in
      sweep_timeouts-Kept n t.ts (take_reports g answer) h
        (take_reports-Kept n g answer h (Run-Kept g n run h))

  -- The count of the unanswered orders is that of the table.
  abbrev Fresh : OrderGateway F V → Type 0
  Fresh g = g.summary.unacknowledged ≡ count_unanswered g.in_flight

  on_venue_reports-Fresh :
      (rs : List (ExecutionReport F)) (g : OrderGateway F V)
      → Fresh g
      → Fresh (on_venue_reports rs g)
  unfolding on_venue_reports on_venue_report refresh_unacknowledged
  on_venue_reports-Fresh [] g k = k
  on_venue_reports-Fresh (r ∷ rs) g k = on_venue_reports-Fresh rs (on_venue_report r g) refl

  sweep_timeouts-Fresh : (now : ℕ) (g : OrderGateway F V) → Fresh g → Fresh (sweep_timeouts now g).0
  unfolding sweep_timeouts refresh_unacknowledged
  sweep_timeouts-Fresh now g k = ground (arith, k)

  Run-Fresh : (g : OrderGateway F V) (n : ℕ) → Run g n → Fresh g
  unfolding new_gateway count_unanswered process_bbo process_l2_top process_market_trade send_order
      cancel_order refresh_unacknowledged
  Run-Fresh _ _ (start config v) = refl
  Run-Fresh _ _ (sent {g} {n} o run) = ground (arith, Run-Fresh g n run)
  Run-Fresh _ _ (cancelled {g} {n} id run) =
      let answer = me.cancel_order id g.venue in
      ground (
        arith,
        Run-Fresh g n run,
        on_venue_reports-Fresh answer.1
            (record g {
              venue = answer.0;
              summary = record g.summary { cancels = add64 g.summary.cancels 1 };
            })
            (Run-Fresh g n run),
      )
  Run-Fresh _ _ (quoted {g} {n} q run) =
      let (v, rs) = me.process_bbo q g.venue in
      sweep_timeouts-Fresh q.ts (take_reports g (v, rs))
        (on_venue_reports-Fresh rs (record g { venue = v }) (Run-Fresh g n run))
  Run-Fresh _ _ (topped {g} {n} q run) =
      let (v, rs) = me.process_l2_top q g.venue in
      sweep_timeouts-Fresh q.ts (take_reports g (v, rs))
        (on_venue_reports-Fresh rs (record g { venue = v }) (Run-Fresh g n run))
  Run-Fresh _ _ (traded {g} {n} t run) =
      let (v, rs) = me.process_market_trade t g.venue in
      sweep_timeouts-Fresh t.ts (take_reports g (v, rs))
        (on_venue_reports-Fresh rs (record g { venue = v }) (Run-Fresh g n run))

  -- Over any venue and after any calls, with fewer than 2^64 orders sent: every order sent is counted; the
  -- orders absorbed and those answered together are no more than the orders sent, and neither are those
  -- absorbed and those timed out. As many orders were asked for as timed out, each with one of the two
  -- answers, and no more than that were sent again. The count of the unacknowledged orders is that of the
  -- timed-out orders without an answer in the table.
  pub gateway-bounds :
      (g : OrderGateway F V) (n : ℕ)
      → Run g n
      → n < u64_mod
      → (g.summary.submissions ≡ n)
        × (g.summary.duplicates_suppressed + g.summary.acks ≤ n)
        × (g.summary.duplicates_suppressed + g.summary.ack_timeouts ≤ n)
        × (g.summary.timeouts_queried ≡ g.summary.ack_timeouts)
        × (g.summary.timeouts_working + g.summary.timeouts_unknown ≡ g.summary.timeouts_queried)
        × (g.summary.retries ≤ g.summary.ack_timeouts)
        × (g.summary.unacknowledged ≡ count_unanswered g.in_flight)
  gateway-bounds g n run h =
      let (k0, k1, k2, k3, k4, k5, k6) = Run-Kept g n run h in
      let fresh = Run-Fresh g n run in ground (arith, fresh)
