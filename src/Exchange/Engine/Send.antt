-- ===== src/Exchange/Engine/Send.antt =====
-- `send_order`, `send_order_now`, `reject_order` and `advance_to` of src/exchange/matching_engine.cpp.
use toy_quant_v.Base.{
  ℕ, ◌%◌, max, Bool, not, ◌&&◌, ◌||◌, List, [], ◌∷◌, ◌++◌, ltb, leb, ◌==◌, if◌then◌else◌, add64,
}
use toy_quant_v.Base.Maps.{contains}
use toy_quant_v.Common.Types.{ExecType, TimeInForce, gtc?, fok?}
use toy_quant_v.Common.Float.{Float}
use toy_quant_v.Exchange.Order.{Order, CancelReason}
use toy_quant_v.Exchange.Sweep.{state_report}
use toy_quant_v.Exchange.Engine.{Engine, symbol_id, book_at, put_report, reject_order}
use toy_quant_v.Exchange.Engine.Match.{match_order}
use toy_quant_v.Exchange.Engine.Touch.{external_available, internal_available, match_external_bbo}

abbrev pub immediate_reason : TimeInForce → CancelReason
immediate_reason TimeInForce.ioc = CancelReason.ioc
immediate_reason TimeInForce.fok = CancelReason.fok
immediate_reason TimeInForce.gtc = CancelReason.fok

module _ {F R : Type 0} where
  -- The two refusals at the top of `send_order_now`.
  unfoldable pub malformed : Engine F R → Order F → Bool
  malformed e o =
      o.id == 0
      || o.qty == 0
      || o.remaining == 0
      || ltb o.qty o.remaining
      || contains o.id e.order_index

  unfoldable pub off_lot : Engine F R → Order F → Bool
  off_lot e o = not (o.qty % e.lot_size == 0) || ltb o.qty e.min_order_quantity

module _ {F : Type 0} where
  -- `std::stable_sort` by the delivery time.
  unfoldable pub insert_due : ℕ × Order F → List (ℕ × Order F) → List (ℕ × Order F)
  insert_due x [] = x ∷ []
  insert_due x (y ∷ ys) = if leb x.0 y.0 then x ∷ y ∷ ys else y ∷ insert_due x ys

  unfoldable pub sort_due : List (ℕ × Order F) → List (ℕ × Order F)
  sort_due [] = []
  sort_due (x ∷ xs) = insert_due x (sort_due xs)

module _ {F R : Type 0} ⦃fl : Float F⦄ where
  -- What an accepted order does once a fill-or-kill check has let it through.
  unfoldable pub execute_order : ℕ → Order F → Engine F R → Engine F R
  execute_order id o e =
      let (left, e1) = match_external_bbo id o e in
      let (e2, unfilled) = match_order id left (gtc? o.time_in_force) e1 in
      if left.remaining == 0
      then e1
      else if ltb 0 unfilled && not (gtc? o.time_in_force)
      then put_report
          (state_report o ExecType.cancelled o.price unfilled o.ts
            (immediate_reason o.time_in_force))
          e2
      else e2

  -- `available < order.remaining` for a fill-or-kill order.
  unfoldable pub fok_short : ℕ → Order F → Engine F R → Bool
  fok_short id o e =
      fok? o.time_in_force
      && ltb (add64 (external_available e o id) (internal_available e (book_at e id) o)) o.remaining

  unfoldable pub accept_order : ℕ → Order F → Engine F R → Engine F R
  accept_order id o e =
      if fok_short id o e
      then put_report (state_report o ExecType.cancelled o.price o.remaining o.ts CancelReason.fok)
          e
      else execute_order id o e

  unfoldable pub send_order_now : Order F → Engine F R → Engine F R
  send_order_now o e =
      let (id, e') = symbol_id e o.symbol in
      if malformed e o || off_lot e o then reject_order e else accept_order id o e'

  unfoldable pub send_order : Order F → Engine F R → Engine F R
  send_order o e = if e.order_latency_us == 0 then send_order_now o e else record e {
    in_flight_orders = e.in_flight_orders ++ (add64 o.ts e.order_latency_us, o) ∷ [];
  }

  -- The loop of `advance_to`, over the sorted orders in flight.
  unfoldable pub deliver : ℕ → List (ℕ × Order F) → Engine F R → Engine F R
  deliver ts [] e = record e { in_flight_orders = [] }
  deliver ts ((due, o) ∷ os) e =
      let rest = deliver ts os (send_order_now o e) in
      if leb due ts then rest else record e { in_flight_orders = (due, o) ∷ os }

  unfoldable pub advance_to : ℕ → Engine F R → Engine F R
  advance_to ts e = deliver ts (sort_due e.in_flight_orders) (record e { now_us = max e.now_us ts })
