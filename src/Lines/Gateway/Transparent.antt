-- ===== src/Lines/Gateway/Transparent.antt =====
-- The gateway of src/lines/order_gateway.cpp without a timeout, against the venue that it wraps.
use toy_quant_v.Base.{ℕ, ◌≡◌, refl, ap, ◌∙◌, true, false, List, [], ◌∷◌, ◌++◌, append-nil, arith}
use toy_quant_v.Base.Maps.{contains}
use toy_quant_v.Common.Types.{BboQuote, MarketTrade}
use toy_quant_v.Exchange.Order.{Order, ExecutionReport}
use toy_quant_v.Exchange.Venue.{MatchingEngine}
use toy_quant_v.Lines.Gateway.{
  OrderGateway, GatewayConfig, on_venue_report, on_venue_reports, refresh_unacknowledged,
}
use toy_quant_v.Lines.Gateway.Calls.{
  send_order, cancel_order, process_bbo, process_l2_top, process_market_trade, sweep_timeouts,
}

-- A call of a venue.
pub data Call (F : Type 0) : Type 0 where
  send : Order F → Call F
  cancel : ℕ → Call F
  bbo top : BboQuote F → Call F
  trade : MarketTrade F → Call F

module _ {F V : Type 0} ⦃me : MatchingEngine F V⦄ where
  abbrev pub venue_call : Call F → V → V × List (ExecutionReport F)
  venue_call (send o) v = me.send_order o v
  venue_call (cancel id) v = me.cancel_order id v
  venue_call (bbo q) v = me.process_bbo q v
  venue_call (top q) v = me.process_l2_top q v
  venue_call (trade t) v = me.process_market_trade t v

  abbrev pub gateway_call : Call F → OrderGateway F V → OrderGateway F V × List (ExecutionReport F)
  gateway_call (send o) g = send_order o g
  gateway_call (cancel id) g = cancel_order id g
  gateway_call (bbo q) g = process_bbo q g
  gateway_call (top q) g = process_l2_top q g
  gateway_call (trade t) g = process_market_trade t g

  abbrev pub venue_calls : List (Call F) → V → V × List (ExecutionReport F)
  venue_calls [] v = (v, [])
  venue_calls (c ∷ cs) v =
      let (v', rs) = venue_call c v in let (v'', later) = venue_calls cs v' in (v'', rs ++ later)

  abbrev pub gateway_calls :
      List (Call F) → OrderGateway F V → OrderGateway F V × List (ExecutionReport F)
  gateway_calls [] g = (g, [])
  gateway_calls (c ∷ cs) g =
      let (g', rs) = gateway_call c g in
      let (g'', later) = gateway_calls cs g' in (g'', rs ++ later)

  -- No id is sent while the gateway holds it, and none is cancelled that it does not hold.
  abbrev pub IsCurrent : Call F → OrderGateway F V → Type 0
  IsCurrent (send o) g = contains o.id g.in_flight ≡ false
  IsCurrent (cancel id) g = contains id g.in_flight ≡ true
  IsCurrent (bbo q) g = Unit
  IsCurrent (top q) g = Unit
  IsCurrent (trade t) g = Unit

  abbrev pub AreCurrent : List (Call F) → OrderGateway F V → Type 0
  AreCurrent [] g = Unit
  AreCurrent (c ∷ cs) g = IsCurrent c g × AreCurrent cs (gateway_call c g).0

  on_venue_reports-venue :
      (rs : List (ExecutionReport F)) (g : OrderGateway F V)
      → ((on_venue_reports rs g).venue ≡ g.venue) × ((on_venue_reports rs g).config ≡ g.config)
  unfolding on_venue_reports on_venue_report refresh_unacknowledged
  on_venue_reports-venue [] g = (refl, refl)
  on_venue_reports-venue (r ∷ rs) g =
      ground (arith, on_venue_reports-venue rs (on_venue_report r g))

  -- One call does to the venue, and reports, what the venue's own call does.
  abbrev Same : Call F → OrderGateway F V → Type 0
  Same c g =
      let (g', rs) = gateway_call c g in
      let (v', rs') = venue_call c g.venue in (g'.venue ≡ v') × (g'.config ≡ g.config) × (rs ≡ rs')

  then_sweep-Same :
      (now : ℕ) (g : OrderGateway F V) (v : V) (rs : List (ExecutionReport F))
      → g.config.ack_timeout_us ≡ 0
      → let (g', rs') = sweep_timeouts now (on_venue_reports rs (record g { venue = v })) in
        (g'.venue ≡ v) × (g'.config ≡ g.config) × (rs' ≡ [])
  unfolding sweep_timeouts
  then_sweep-Same now g v rs h = ground (arith, on_venue_reports-venue rs (record g { venue = v }))

  gateway_call-Same :
      (c : Call F) (g : OrderGateway F V) → g.config.ack_timeout_us ≡ 0 → IsCurrent c g → Same c g
  unfolding send_order cancel_order process_bbo process_l2_top process_market_trade
      refresh_unacknowledged
  gateway_call-Same (send o) g h k =
      let (v, rs) = me.send_order o g.venue in grind (arith, on_venue_reports-venue rs)
  gateway_call-Same (cancel id) g h k =
      let (v, rs) = me.cancel_order id g.venue in grind (arith, on_venue_reports-venue rs)
  gateway_call-Same (bbo q) g h k =
      let (v, rs) = me.process_bbo q g.venue in
      ground (arith, then_sweep-Same q.ts g v rs h, append-nil rs)
  gateway_call-Same (top q) g h k =
      let (v, rs) = me.process_l2_top q g.venue in
      ground (arith, then_sweep-Same q.ts g v rs h, append-nil rs)
  gateway_call-Same (trade t) g h k =
      let (v, rs) = me.process_market_trade t g.venue in
      ground (arith, then_sweep-Same t.ts g v rs h, append-nil rs)

  -- Without a timeout the gateway is the venue: for any calls in which no id is sent while the gateway
  -- holds it and only ids that it holds are cancelled, the venue behind it ends as it would without it,
  -- and the consumer gets the same reports in the same order.
  pub gateway_calls-venue :
      (cs : List (Call F)) (g : OrderGateway F V)
      → g.config.ack_timeout_us ≡ 0
      → AreCurrent cs g
      → ((gateway_calls cs g).0.venue ≡ (venue_calls cs g.venue).0)
        × ((gateway_calls cs g).1 ≡ (venue_calls cs g.venue).1)
  gateway_calls-venue [] g h k = (refl, refl)
  gateway_calls-venue (c ∷ cs) g h (now, later) =
      let (g', rs) = gateway_call c g in
      let (held, config, reports) = gateway_call-Same c g h now in
      let (held', reports') =
        gateway_calls-venue cs g' (ap (λ (x : GatewayConfig). x.ack_timeout_us) config ∙ h) later in
      let onward : V → V × List (ExecutionReport F) = venue_calls cs in
      (
        held' ∙ ap (λ v. (onward v).0) held,
        ap (λ xs. xs ++ (gateway_calls cs g').1) reports
            ∙ ap (λ xs. (venue_call c g.venue).1 ++ xs) (reports' ∙ ap (λ v. (onward v).1) held),
      )
