-- ===== src/Exchange/Tests.antt =====
-- Runs of the engine on small inputs, and the theorems of src/exchange at such inputs.
use toy_quant_v.Base.{
  ℕ, ◌+◌, ◌≡◌, refl, pos, bytes, bytes_eq, [], ◌∷◌, map, some, arith, add64, true, ◌⊎◌,
}
use toy_quant_v.Base.Maps.{lookup, insert, erase, contains_key}
use toy_quant_v.Common.Types.{TimeInForce, ExecType}
use toy_quant_v.Common.Float.{to_price, to_price_tick}
use toy_quant_v.Exchange.Order.{Order, OrderSide, CancelReason}
use toy_quant_v.Exchange.Book.{find_level, put_level, erase_level, find_order, remove_order}
use toy_quant_v.Exchange.Sweep.{
  normalize_owner, is_self_trade, consume_queue, state_report, trade_report, fill_one, fill_orders,
  match_levels,
}
use toy_quant_v.Exchange.Sweep.Volume.{MatchesLevels, match_levels-Matches, volume, taker?}
use toy_quant_v.Exchange.Sweep.Priority.{Taken, in_priority, match_levels-Taken}
use toy_quant_v.Exchange.Engine.{
  new_engine, find_symbol_in, find_symbol, symbol_id, book_at, put_report, one_if_zero,
}
use toy_quant_v.Exchange.Engine.Match.{
  start_sweep, end_sweep, match_side, match_order, rest_unfilled, join_level,
  displayed_quantity_ahead,
}
use toy_quant_v.Exchange.Engine.Touch.{
  external_touch, external_available, internal_available, add_levels, add_level, match_external_bbo,
}
use toy_quant_v.Exchange.Engine.Send.{
  malformed, off_lot, execute_order, accept_order, fok_short, send_order_now, send_order,
  advance_to,
}
use toy_quant_v.Exchange.Engine.Cancel.{deref, cancel_order, cancel_order_immediate, remove_from}
use toy_quant_v.Exchange.Engine.Fok.{fok-all_or_nothing}
use toy_quant_v.Exchange.Engine.Refuse.{WellFormed, send_order_now-refuses}
use toy_quant_v.Exchange.Engine.Latency.{Delivers, advance_to-Delivers}
use toy_quant_v.Exchange.Engine.Immediate.{NotResting, accept_order-NotResting}
use toy_quant_v.Exchange.Engine.SelfTrade.{self_trade-reported_filled}
use toy_quant_v.Exchange.Engine.Pointers.Events.{deref-calls, send, cancel, call, calls}
use toy_quant_v.Exchange.Samples.{
  whole, still, no_fees, plain, order_of, ask_1, ask_2, buy_8, two_asks, sweep_8, fresh, asking,
}

match_levels-Matches_example :
    MatchesLevels no_fees 1 buy_8 two_asks
      (match_levels no_fees 1 buy_8 (pos 11) two_asks sweep_8).0
      sweep_8
      (match_levels no_fees 1 buy_8 (pos 11) two_asks sweep_8).1
match_levels-Matches_example = match_levels-Matches no_fees 1 buy_8 (pos 11) two_asks sweep_8

match_levels-Taken_example :
    Taken
      (in_priority two_asks)
      (in_priority (match_levels no_fees 1 buy_8 (pos 11) two_asks sweep_8).0)
match_levels-Taken_example = match_levels-Taken no_fees 1 buy_8 (pos 11) two_asks sweep_8

fok-all_or_nothing_example :
    (volume taker? (accept_order 1 buy_8 asking).reports ≡ volume taker? asking.reports + 8)
    ⊎ (accept_order 1 buy_8 asking
        ≡ put_report (state_report buy_8 ExecType.cancelled 11 8 1 CancelReason.fok) asking)
unfolding bytes_eq
fok-all_or_nothing_example = fok-all_or_nothing 1 buy_8 asking refl (omega arith) refl

-- The fill-or-kill order takes both asks: 5 at 10 and 3 of the 7 at 11.
buy_8-runs :
    map {B = ℕ × ℕ} (λ r. (r.order_id, r.quantity)) (accept_order 1 buy_8 asking).reports
    ≡ (3, 0) ∷ (2, 4) ∷ (2, 3) ∷ (3, 3) ∷ (1, 0) ∷ (1, 5) ∷ (3, 5) ∷ []
unfolding accept_order execute_order fok_short external_available internal_available external_touch
    add_levels add_level add64 is_self_trade normalize_owner bytes_eq match_external_bbo match_order
    match_side match_levels fill_orders fill_one consume_queue start_sweep end_sweep put_report
    state_report trade_report book_at lookup new_engine to_price_tick to_price
buy_8-runs = refl

send_order_now-refuses_example :
    (WellFormed asking ask_1 → (send_order_now ask_1 asking).rejected_orders ≡ 0)
    × ((WellFormed asking ask_1 → ⊥)
        → send_order_now ask_1 asking ≡ record asking { rejected_orders = add64 0 1 })
unfolding new_engine
send_order_now-refuses_example = send_order_now-refuses ask_1 asking

accept_order-NotResting_example : NotResting 1 OrderSide.buy asking (accept_order 1 buy_8 asking)
accept_order-NotResting_example = accept_order-NotResting 1 buy_8 asking refl

advance_to-Delivers_example :
    Delivers 5
      (record fresh { in_flight_orders = (9, ask_1) ∷ (4, ask_2) ∷ [] })
      (advance_to 5 (record fresh { in_flight_orders = (9, ask_1) ∷ (4, ask_2) ∷ [] }))
advance_to-Delivers_example =
    advance_to-Delivers 5 (record fresh { in_flight_orders = (9, ask_1) ∷ (4, ask_2) ∷ [] })

-- The owner of the resting ask at 10 buys at 11.
abbrev own_buy : Order ℕ
own_buy = order_of 9 OrderSide.buy 11 8 (bytes "a ") TimeInForce.gtc

self_trade-reported_filled_example :
    (match_side 1 (record { bids = []; asks = two_asks }) own_buy true asking).1.reports
    ≡ state_report own_buy ExecType.filled 11 0 1 CancelReason.none
      ∷ state_report own_buy ExecType.cancelled 11 8 1 CancelReason.self_trade
      ∷ []
unfolding is_self_trade normalize_owner bytes_eq to_price_tick new_engine
self_trade-reported_filled_example =
    self_trade-reported_filled 1 (record { bids = []; asks = two_asks }) own_buy ask_1 true asking
      (pos 10) (record { orders = ask_1 ∷ []; external_queue_ahead = 0 }) []
      ((pos 11, record { orders = ask_2 ∷ []; external_queue_ahead = 4 }) ∷ []) refl refl refl refl
      refl (omega arith)

-- Order 2 rests after order 1 was sent and cancelled.
deref-calls_example :
    (o : Order ℕ) × (deref
        (calls fresh (send ask_1 ∷ cancel 1 ∷ send ask_2 ∷ []))
        2
        (record { symbol_id = 1; side = OrderSide.sell; tick = pos 11 })
      ≡ some o)
unfolding calls call send_order send_order_now cancel_order cancel_order_immediate deref malformed
    off_lot symbol_id find_symbol find_symbol_in accept_order execute_order fok_short external_touch
    match_external_bbo match_order match_side match_levels rest_unfilled join_level start_sweep
    end_sweep put_report put_level find_level find_order remove_from remove_order erase_level
    displayed_quantity_ahead contains_key state_report book_at lookup insert erase new_engine
    to_price_tick bytes_eq one_if_zero
deref-calls_example =
    deref-calls whole still 1 no_fees plain (send ask_1 ∷ cancel 1 ∷ send ask_2 ∷ []) 2
      (record { symbol_id = 1; side = OrderSide.sell; tick = pos 11 }) refl
