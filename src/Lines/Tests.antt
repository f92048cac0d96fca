-- ===== src/Lines/Tests.antt =====
-- The witnesses for src/lines, with the matching engine as the venue.
use toy_quant_v.Base.{
  add64, bytes_eq, List, ◌++◌, ◌%◌, u64_mod, length, ℕ, ◌+◌, ◌≤◌, ◌≡◌, refl, true, false, [], ◌∷◌,
  arith, bytes,
}
use toy_quant_v.Base.Maps.{lookup, insert, erase}
use toy_quant_v.Exchange.Samples.{whole, still, fresh, ask_1, ask_2, buy_8}
use toy_quant_v.Exchange.Engine.{Engine}
use toy_quant_v.Exchange.Venue.{MatchingEngine, OrderQuery, engine_venue}
use toy_quant_v.Exchange.Order.{
  Order, ExecutionReport, OrderSide, LiquidityRole, RejectReason, CancelReason,
}
use toy_quant_v.Common.Types.{ExecType}
use toy_quant_v.Lines.Gateway.{
  OrderGateway, new_gateway, count_unanswered, on_venue_reports, on_venue_report,
  refresh_unacknowledged, remaining_after,
}
use toy_quant_v.Lines.Gateway.Calls.{send_order, cancel_order}
use toy_quant_v.Lines.Gateway.History.{start, sent}
use toy_quant_v.Lines.Gateway.Bounds.{gateway-bounds}
use toy_quant_v.Lines.Gateway.Transparent.{send, cancel, gateway_calls, gateway_calls-venue}
use toy_quant_v.Base.Symbols.{entry_of}
use toy_quant_v.Lines.Gateway.Transparent.{venue_calls}
use toy_quant_v.Accounting.Portfolio.{new_portfolio, position_in}
use toy_quant_v.Lines.Broker.{PaperBroker, BrokerFaults, new_broker, statement_of}
use toy_quant_v.Lines.Broker
use toy_quant_v.Lines.Broker.Calls
use toy_quant_v.Lines.Broker.Calls.{broker_venue}
use toy_quant_v.Lines.Broker.Agree.{Agree, book_all, on_venue_reports-Agree}
use toy_quant_v.Lines.Broker.Faultless.{broker_venue-venue}
use toy_quant_v.Lines.Broker.Orders.{broker-Placed}
use toy_quant_v.Lines.Broker.Counts.{Placed}
use toy_quant_v.Lines.Broker.Log.{logged}
use mathlib.Core.List.{Sublist}

abbrev patient : OrderGateway ℕ (Engine ℕ ℕ)
patient = new_gateway (record { ack_timeout_us = 5; retry_on_timeout = true }) fresh

-- Order 1 is sent twice.
abbrev doubled : OrderGateway ℕ (Engine ℕ ℕ)
doubled = (send_order ask_1 (send_order ask_1 patient).0).0

gateway-bounds_example :
    (doubled.summary.submissions ≡ 2)
    × (doubled.summary.duplicates_suppressed + doubled.summary.acks ≤ 2)
    × (doubled.summary.duplicates_suppressed + doubled.summary.ack_timeouts ≤ 2)
    × (doubled.summary.timeouts_queried ≡ doubled.summary.ack_timeouts)
    × (doubled.summary.timeouts_working + doubled.summary.timeouts_unknown
        ≡ doubled.summary.timeouts_queried)
    × (doubled.summary.retries ≤ doubled.summary.ack_timeouts)
    × (doubled.summary.unacknowledged ≡ count_unanswered doubled.in_flight)
gateway-bounds_example =
    gateway-bounds doubled 2
      (sent ask_1
        (sent ask_1 (start (record { ack_timeout_us = 5; retry_on_timeout = true }) fresh)))
      (omega arith)

-- A venue that rests what it gets, counts its calls and answers each.
abbrev answer_of : ℕ → ExecType → ℕ → ExecutionReport ℕ
answer_of id kind n = record {
  order_id = id;
  side = OrderSide.sell;
  exec_type = kind;
  symbol = bytes "EURUSD";
  price = 10;
  quantity = n;
  ts = 1;
  owner = bytes "A";
  liquidity_role = LiquidityRole.unknown;
  fee = 0;
  reject_reason = RejectReason.none;
  cancel_reason = CancelReason.none;
}

abbrev resting_venue : MatchingEngine ℕ ℕ
resting_venue = record {
  send_order = λ o v. (v + 1, answer_of o.id ExecType.resting o.remaining ∷ []);
  process_bbo = λ q v. (v + 1, []);
  process_l2_top = λ q v. (v + 1, []);
  process_market_trade = λ t v. (v + 1, []);
  cancel_order = λ id v. (v + 1, answer_of id ExecType.cancelled 0 ∷ []);
  rejected_orders = λ v. 0;
  query_order = λ id v. OrderQuery.working;
}

abbrev plain_gateway : OrderGateway ℕ ℕ
plain_gateway = new_gateway (record { ack_timeout_us = 0; retry_on_timeout = false }) 0

gateway_calls-venue_example :
    ((gateway_calls ⦃me = resting_venue⦄ (send ask_1 ∷ cancel 1 ∷ []) plain_gateway).0.venue ≡ 2)
    × ((gateway_calls ⦃me = resting_venue⦄ (send ask_1 ∷ cancel 1 ∷ []) plain_gateway).1
        ≡ answer_of 1 ExecType.resting 5 ∷ answer_of 1 ExecType.cancelled 0 ∷ [])
unfolding new_gateway send_order cancel_order lookup insert erase on_venue_reports on_venue_report
    refresh_unacknowledged remaining_after
gateway_calls-venue_example =
    gateway_calls-venue ⦃me = resting_venue⦄ (send ask_1 ∷ cancel 1 ∷ []) plain_gateway refl
      (refl, (refl, tt))

abbrev faults_of : ℕ → ℕ → BrokerFaults
faults_of reject split = record {
  reject_every = reject;
  partial_every = split;
  drop_every = 0;
  outage_after = 0;
  outage_holds = 0;
}

broker_venue-venue_example :
    let b : PaperBroker ℕ ℕ = new_broker (faults_of 0 0) 0 in
    let calls = send ask_1 ∷ cancel 1 ∷ [] in
    ((venue_calls ⦃me = broker_venue ⦃me = resting_venue⦄⦄ calls b).0.venue ≡ 2)
    × ((venue_calls ⦃me = broker_venue ⦃me = resting_venue⦄⦄ calls b).1
        ≡ answer_of 1 ExecType.resting 5 ∷ answer_of 1 ExecType.cancelled 0 ∷ [])
unfolding new_broker
broker_venue-venue_example =
    broker_venue-venue ⦃me = resting_venue⦄ (send ask_1 ∷ cancel 1 ∷ [])
      (new_broker (faults_of 0 0) 0) (refl, refl, refl)

-- The second order starts an outage and is held; the third ends it.
abbrev outage_run : PaperBroker ℕ (ℕ × List (Order ℕ))
outage_run =
    (venue_calls ⦃me = broker_venue ⦃me = logged resting_venue⦄⦄
      (send ask_1 ∷ send ask_2 ∷ send buy_8 ∷ [])
      (new_broker (record (faults_of 0 0) { outage_after = 1; outage_holds = 1 }) (0, []))).0

broker-Placed_example :
    Sublist (outage_run.venue.1 ++ outage_run.held) (ask_1 ∷ ask_2 ∷ buy_8 ∷ [])
    × Placed outage_run
    × (length outage_run.venue.1 % u64_mod
        ≡ (outage_run.accepted_orders + outage_run.summary.orders_released) % u64_mod)
    × (outage_run.summary.orders_submitted % u64_mod ≡ 3)
broker-Placed_example =
    broker-Placed resting_venue (record (faults_of 0 0) { outage_after = 1; outage_holds = 1 }) 0
      (send ask_1 ∷ send ask_2 ∷ send buy_8 ∷ [])

-- The venue gets all three.
outage_run-runs : outage_run.venue.1 ≡ ask_1 ∷ ask_2 ∷ buy_8 ∷ []
unfolding new_broker Calls.send_order Calls.start_outage Calls.hold Calls.accept Calls.release_held
    Calls.send_all Broker.on_venue_reports Broker.on_venue_report Broker.forward add64 bytes_eq
outage_run-runs = refl

abbrev own_fill : ExecutionReport ℕ
own_fill = record (answer_of 1 ExecType.trade 5) { owner = bytes "MarketMaker" }

on_venue_reports-Agree_example :
    let (b, told) =
      Broker.on_venue_reports (own_fill ∷ []) (new_broker {V = ℕ} (faults_of 0 1) 0) in
    Agree b (book_all told (new_portfolio 1 1000 0 1)) (bytes "EURUSD")
unfolding new_broker new_portfolio statement_of position_in entry_of
on_venue_reports-Agree_example =
    on_venue_reports-Agree (own_fill ∷ []) (new_broker {V = ℕ} (faults_of 0 1) 0)
      (new_portfolio 1 1000 0 1) (bytes "EURUSD") refl (omega arith, tt) (refl, refl)
