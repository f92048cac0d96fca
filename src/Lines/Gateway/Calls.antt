-- ===== src/Lines/Gateway/Calls.antt =====
-- The calls of `OrderGateway` that reach the venue (src/lines/order_gateway.cpp).
use toy_quant_v.Base.{ℕ, false, List, [], ◌∷◌, ◌++◌, ◌==◌, if◌then◌else◌, add64}
use toy_quant_v.Base.Maps.{insert, erase, contains}
use toy_quant_v.Common.Types.{BboQuote, MarketTrade}
use toy_quant_v.Exchange.Order.{Order, ExecutionReport}
use toy_quant_v.Exchange.Venue.{MatchingEngine}
use toy_quant_v.Lines.Gateway.{
  OrderGateway, GatewaySummary, Tracked, take_reports, refresh_unacknowledged, sweep_table,
}

module _ {F V : Type 0} ⦃me : MatchingEngine F V⦄ where
  -- The second loop of `sweep_timeouts`.
  unfoldable pub resend :
      List (Order F) → OrderGateway F V → OrderGateway F V × List (ExecutionReport F)
  resend [] g = (g, [])
  resend (o ∷ os) g =
      let answer = me.send_order o g.venue in
      let g1 = take_reports g answer in
      let refused : GatewaySummary =
        if me.rejected_orders g1.venue == me.rejected_orders g.venue
        then g1.summary
        else record g1.summary { retry_rejections = add64 g1.summary.retry_rejections 1 } in
      let (g2, rs) = resend os (record g1 { summary = refused }) in (g2, answer.1 ++ rs)

  unfoldable pub sweep_timeouts : ℕ → OrderGateway F V → OrderGateway F V × List (ExecutionReport F)
  sweep_timeouts now g =
      let (table, summary, due) =
        sweep_table g.config (λ id. me.query_order id g.venue) now g.in_flight g.summary in
      let (g1, rs) = resend due (record g { in_flight = table; summary = summary }) in
      if g.config.ack_timeout_us == 0 then (g, []) else (refresh_unacknowledged g1, rs)

  abbrev pub then_sweep :
      ℕ
      → OrderGateway F V
      → V × List (ExecutionReport F)
      → OrderGateway F V × List (ExecutionReport F)
  then_sweep now g answer =
      let (g1, rs) = sweep_timeouts now (take_reports g answer) in (g1, answer.1 ++ rs)

  unfoldable pub process_bbo :
      BboQuote F → OrderGateway F V → OrderGateway F V × List (ExecutionReport F)
  process_bbo q g = then_sweep q.ts g (me.process_bbo q g.venue)

  unfoldable pub process_l2_top :
      BboQuote F → OrderGateway F V → OrderGateway F V × List (ExecutionReport F)
  process_l2_top q g = then_sweep q.ts g (me.process_l2_top q g.venue)

  unfoldable pub process_market_trade :
      MarketTrade F → OrderGateway F V → OrderGateway F V × List (ExecutionReport F)
  process_market_trade t g = then_sweep t.ts g (me.process_market_trade t g.venue)

  unfoldable pub send_order :
      Order F → OrderGateway F V → OrderGateway F V × List (ExecutionReport F)
  send_order o g =
      let counted = record g.summary { submissions = add64 g.summary.submissions 1 } in
      let doubled = record counted {
        duplicates_suppressed = add64 counted.duplicates_suppressed 1;
      } in
      let tracked : Tracked F = record {
        order = o;
        submitted_ts = o.ts;
        remaining = o.remaining;
        answered = false;
        timed_out = false;
        queried = false;
        venue_working = false;
        retried = false;
      } in
      let entered = record g { summary = counted; in_flight = insert o.id tracked g.in_flight } in
      let answer = me.send_order o g.venue in
      let g1 = take_reports entered answer in
      let refused = record g1 {
        summary = record g1.summary { venue_rejects = add64 g1.summary.venue_rejects 1 };
        in_flight = erase o.id g1.in_flight;
      } in
      if contains o.id g.in_flight then (record g { summary = doubled }, []) else (
        refresh_unacknowledged
            (if me.rejected_orders g1.venue == me.rejected_orders g.venue then g1 else refused),
        answer.1,
      )

  unfoldable pub cancel_order : ℕ → OrderGateway F V → OrderGateway F V × List (ExecutionReport F)
  cancel_order id g =
      let counted = record g.summary { cancels = add64 g.summary.cancels 1 } in
      let late = record counted { cancels_after_fill = add64 counted.cancels_after_fill 1 } in
      let answer = me.cancel_order id g.venue in
      if contains id g.in_flight
      then (take_reports (record g { summary = counted }) answer, answer.1)
      else (record g { summary = late }, [])
