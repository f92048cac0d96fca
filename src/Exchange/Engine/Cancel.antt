-- ===== src/Exchange/Engine/Cancel.antt =====
-- `cancel_order`, `cancel_order_immediate` and `apply_pending_cancels` of src/exchange/matching_engine.cpp.
use toy_quant_v.Base.{ℕ, ◌||◌, List, [], ◌∷◌, Option, none, some, ltb, if◌then◌else◌, add64}
use toy_quant_v.Base.Maps.{lookup, insert, erase, contains}
use toy_quant_v.Common.Types.{ExecType}
use toy_quant_v.Common.Float.{Float, to_price_tick}
use toy_quant_v.Exchange.Order.{Order, CancelReason}
use toy_quant_v.Exchange.Book.{
  MeOrderBook, levels_of, with_levels, find_level, put_level, erase_level, find_order, remove_order,
}
use toy_quant_v.Exchange.Sweep.{Place, is_empty, state_report}
use toy_quant_v.Exchange.Engine.{Engine, PendingCancel, symbol_id, book_at, put_report}

module _ {F R : Type 0} where
  -- `*it->second`: the order that a pointer of `order_index_` points to; `none` is a dangling pointer.
  unfoldable pub deref : Engine F R → ℕ → Place → Option (Order F)
  deref e id p = elim (find_level p.tick (levels_of p.side (book_at e p.symbol_id))) [
    | none ↦ none
    | some level ↦ find_order id level.orders
  ]

module _ {F R : Type 0} ⦃fl : Float F⦄ where
  -- `remove_from` on the side of the order.
  unfoldable pub remove_from : Engine F R → ℕ → Order F → MeOrderBook F → MeOrderBook F
  remove_from e order_id o book =
      let tick = to_price_tick o.price e.tick_size in
      let levels = levels_of o.side book in
      elim (find_level tick levels) [
        | none ↦ book
        | some level ↦
            let orders' = remove_order order_id level.orders in
            if is_empty orders'
            then with_levels o.side (erase_level tick levels) book
            else with_levels o.side
                (put_level o.side tick (record level { orders = orders' }) levels) book
      ]

  -- A dangling pointer is undefined behaviour; the model then changes nothing.
  unfoldable pub cancel_order_immediate : ℕ → Engine F R → Engine F R
  cancel_order_immediate order_id e = elim (lookup order_id e.order_index) [
    | none ↦ e
    | some place ↦ elim (deref e order_id place) [
      | none ↦ e
      | some o ↦
          let (id, e1) = symbol_id e o.symbol in
          put_report (state_report o ExecType.cancelled o.price o.remaining o.ts CancelReason.user)
            (record e1 {
              books = insert id (remove_from e1 order_id o (book_at e1 id)) e1.books;
              order_index = erase order_id e1.order_index;
            })
    ]
  ]

  unfoldable pub cancel_order : ℕ → Engine F R → Engine F R
  cancel_order order_id e =
      if ltb 0 e.cancel_delay_events || ltb 0 e.cancel_latency_us
      then if contains order_id e.order_index
        then record e {
          pending_cancels =
              insert order_id
                (record {
                  due_event = add64 e.event_counter e.cancel_delay_events;
                  due_time = add64 e.now_us e.cancel_latency_us;
                })
                e.pending_cancels;
        }
        else e
      else cancel_order_immediate order_id e

  -- The loop over the map: an entry that is not due stays. The iteration order is the list's.
  unfoldable pub apply_cancels : List (ℕ × PendingCancel) → Engine F R → Engine F R
  apply_cancels [] e = e
  apply_cancels ((order_id, p) ∷ ps) e =
      let due =
        cancel_order_immediate order_id
          (record e { pending_cancels = erase order_id e.pending_cancels }) in
      apply_cancels ps
        (if ltb e.event_counter p.due_event || ltb e.now_us p.due_time then e else due)

  unfoldable pub apply_pending_cancels : Engine F R → Engine F R
  apply_pending_cancels e = apply_cancels e.pending_cancels e
