-- ===== src/App/Tests.antt =====
-- The witnesses for src/app/risk_pipeline.cpp and src/app/order_ledger.cpp.
use toy_quant_v.Base.{
  ℕ, ◌≤◌, ◌<◌, ◌≡◌, ◌⊎◌, refl, pos, true, [], ◌∷◌, none, arith, bytes, add64, abs_ℤ, ◌+ℤ◌, ◌-ℤ◌,
  to_i64,
}
use toy_quant_v.Base.Maps.{lookup}
use toy_quant_v.Common.Types.{Side, ExecType, TimeInForce}
use toy_quant_v.Exchange.Samples.{whole}
use toy_quant_v.Exchange.Order.{
  ExecutionReport, OrderSide, LiquidityRole, RejectReason, CancelReason, is_terminal,
}
use toy_quant_v.Base.{false, ◌++◌, ◌≢◌}
use toy_quant_v.App.Orders.{StrategyOrder}
use toy_quant_v.App.Risk.{
  check_kill_switch, check_fat_finger, check_rate_limit, check_exposure, check_position,
  RiskPipeline, RiskContext, RiskLimits, Reason, refuse, check, new_risk, projected_position,
  current_position, within_limit, is_reducing, refill,
}
use toy_quant_v.App.Risk.Latch.{check-latched, calls, cycle, order, rate}
use toy_quant_v.App.Risk.Position.{check-bound, check-Counts, refusals, Counts}
use toy_quant_v.App.Risk.Tokens.{refused-token_taken}
use toy_quant_v.App.Ledger.{OrderLedger, Quality, order_state, open_order}
use toy_quant_v.App.Ledger.Report.{on_report}
use toy_quant_v.App.Ledger.History.{Run, start, opened, reported, new_ledger, new_quality}
use toy_quant_v.App.Ledger.States.{RestCounted, on_report-transitions}
use toy_quant_v.App.Ledger.Trace.{
  QueueTrace, TraceRow, submit, trace_sample, trace_calls, last_queue, trace_sample-row,
}
use toy_quant_v.App.Ledger.Tally.{Run-Balanced, Balanced}

abbrev buy_of : ℕ → StrategyOrder ℕ
buy_of n = record {
  side = Side.buy;
  symbol = bytes "EURUSD";
  price = 10;
  quantity = n;
  order_id = 1;
  time_in_force = TimeInForce.gtc;
}

abbrev limits_of : ℕ → RiskLimits ℕ
limits_of per_second = record {
  position_limit = pos 10;
  max_exposure_usd = 0;
  kill_switch_loss_usd = 0;
  fat_finger_bps = 0;
  max_orders_per_second = per_second;
  order_burst = 3;
}

abbrev holding : RiskContext ℕ
holding = record {
  position = pos 4;
  pending_buy_quantity = pos 3;
  pending_sell_quantity = pos 0;
  quantity_scale = 1;
  unit_notional_usd = 1;
  multiplier = 1;
  quote = none;
  now_seconds = 5;
}

abbrev report_of : ℕ → ExecType → ℕ → ExecutionReport ℕ
report_of id kind n = record {
  order_id = id;
  side = OrderSide.buy;
  exec_type = kind;
  symbol = bytes "EURUSD";
  price = 10;
  quantity = n;
  ts = 1;
  owner = bytes "MarketMaker";
  liquidity_role = LiquidityRole.maker;
  fee = 0;
  reject_reason = RejectReason.none;
  cancel_reason = CancelReason.none;
}

abbrev controls : ℕ → RiskPipeline ℕ
controls per_second = new_risk (limits_of per_second)

abbrev tripped : RiskPipeline ℕ
tripped = record (controls 0) { kill_switch_triggered = true; kill_switch_ts = 7 }

check-bound_example :
    (abs_ℤ (projected_position (buy_of 3) holding) ≤ 10)
    ⊎ (abs_ℤ (projected_position (buy_of 3) holding) < abs_ℤ (current_position holding))
unfolding check check_kill_switch check_fat_finger check_rate_limit check_exposure check_position
    refill is_reducing within_limit projected_position new_risk to_i64 ◌+ℤ◌ ◌-ℤ◌
check-bound_example = check-bound (buy_of 3) holding (controls 0) refl refl (ground arith)

check-Counts_example : Counts (controls 0) (check (buy_of 5) holding (controls 0))
unfolding new_risk refusals
check-Counts_example = check-Counts (buy_of 5) holding (controls 0) (omega arith)

check-latched_example :
    let s = calls tripped (cycle 50 9 ∷ order (buy_of 1) holding ∷ rate 2 1 ∷ []) in
    (s.kill_switch_ts ≡ 7)
    × (check (buy_of 2) holding s ≡ (
      record s { kill_switch_rejected_orders = add64 s.kill_switch_rejected_orders 1 },
      refuse Reason.kill_switch,
    ))
check-latched_example =
    check-latched tripped (cycle 50 9 ∷ order (buy_of 1) holding ∷ rate 2 1 ∷ []) (buy_of 2) holding
      refl

refused-token_taken_example :
    ((check (buy_of 5) holding (controls 2)).1 ≡ refuse Reason.position)
    × ((check (buy_of 5) holding (controls 2)).0.tokens ≡ 2)
unfolding new_risk is_reducing within_limit projected_position refill to_i64 ◌+ℤ◌ ◌-ℤ◌
refused-token_taken_example =
    refused-token_taken (buy_of 5) holding (controls 2) refl refl refl refl refl (ground arith) refl
      refl refl

abbrev one_open : OrderLedger ℕ × Quality ℕ
one_open = open_order 1 3 new_ledger new_quality

abbrev one_open-Run : Run one_open.0 one_open.1 0
unfolding lookup
one_open-Run = opened 1 3 refl start

on_report-transitions_example :
    let (l', q', owed) = on_report (report_of 1 ExecType.filled 5) 8 1 0 0 one_open.0 one_open.1 in
    (q'.invalid_order_transitions ≡ 0)
    × (is_terminal ExecType.filled ≡ true → order_state 1 l' ≡ none)
    × (order_state 1 one_open.0 ≡ none → order_state 1 l' ≡ none)
    × RestCounted (λ _ _ _. 3) (report_of 1 ExecType.filled 5) one_open.0 one_open.1
unfolding open_order
on_report-transitions_example =
    on_report-transitions (λ _ _ _. 3) (report_of 1 ExecType.filled 5) 8 1 0 0 one_open.0 one_open.1
      0 one_open-Run

Run-Balanced_example :
    let (l', q', owed) = on_report (report_of 1 ExecType.filled 5) 8 1 0 0 one_open.0 one_open.1 in
    Balanced l'.order_audit q' 0
Run-Balanced_example =
    Run-Balanced (on_report (report_of 1 ExecType.filled 5) 8 1 0 0 one_open.0 one_open.1).0
      (on_report (report_of 1 ExecType.filled 5) 8 1 0 0 one_open.0 one_open.1).1 0
      (reported (report_of 1 ExecType.filled 5) 8 1 0 0 one_open-Run)

abbrev untraced : QueueTrace ℕ
untraced = record {
  trace_order_id = 1;
  trace_level_known = false;
  trace_symbol = [];
  trace_side = Side.unknown;
  trace_price = 0;
  trace_last_queue = 0;
  trace_rows = [];
}

-- The order is submitted behind a queue of 9, which is 4 at the sample.
trace_sample-row_example :
    let now = trace_calls (submit (λ symbol side price. 9) (buy_of 5) 1 ∷ []) untraced in
    let later = trace_sample (λ symbol side price. 4) (bytes "trade") 2 now in
    (later ≡ now)
    ⊎ ((row : TraceRow ℕ) × (later.trace_rows ≡ now.trace_rows ++ row ∷ [])
        × (row.change ≡ to_i64 (last_queue now.trace_rows) -ℤ to_i64 row.queue_ahead)
        × (row.queue_ahead ≢ last_queue now.trace_rows))
unfolding last_queue
trace_sample-row_example =
    trace_sample-row (submit (λ symbol side price. 9) (buy_of 5) 1 ∷ []) untraced
      (λ symbol side price. 4) (bytes "trade") 2 refl
