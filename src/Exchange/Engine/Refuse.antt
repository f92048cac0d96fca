-- ===== src/Exchange/Engine/Refuse.antt =====
-- What `send_order_now` of src/exchange/matching_engine.cpp refuses.
use toy_quant_v.Base.{
  none, inl, inr, Bool-cases, ◌≢◌, ◌≤◌, ◌%◌, ℕ, ◌≡◌, refl, ◌∙◌, Bool, false, ◌||◌, List, arith,
  add64,
}
use toy_quant_v.Base.Maps.{lookup}
use toy_quant_v.Common.Types.{gtc?}
use toy_quant_v.Common.Float.{Float, to_price_tick}
use toy_quant_v.Exchange.Order.{Order, OrderSide}
use toy_quant_v.Exchange.Book.{levels_of}
use toy_quant_v.Exchange.Sweep.{Sweep, match_levels}
use toy_quant_v.Exchange.Engine.{Engine, symbol_id, book_at, put_report, reject_order}
use toy_quant_v.Exchange.Engine.Match.{
  match_side, match_order, rest_unfilled, start_sweep, end_sweep, opposite,
}
use toy_quant_v.Exchange.Engine.Touch.{match_external_bbo}
use toy_quant_v.Exchange.Engine.Send.{
  malformed, off_lot, execute_order, accept_order, send_order_now,
}

module _ {F R : Type 0} ⦃fl : Float F⦄ where
  rejected-end_sweep :
      (side : OrderSide) (s : Sweep F) (e : Engine F R)
      → (end_sweep side s e).rejected_orders ≡ e.rejected_orders
  unfolding end_sweep
  rejected-end_sweep OrderSide.buy s e = refl
  rejected-end_sweep OrderSide.sell s e = refl

  rejected-match_order :
      (id : ℕ) (o : Order F) (rest : Bool) (e : Engine F R)
      → (match_order id o rest e).0.rejected_orders ≡ e.rejected_orders
  unfolding match_order match_side rest_unfilled put_report
  rejected-match_order id o rest e = ground (
    arith,
    rejected-end_sweep o.side
        (match_levels e.fee_schedule e.tick_size o (to_price_tick o.price e.tick_size)
          (levels_of (opposite o.side) (book_at e id)) (start_sweep e o)).1
        e,
  )

  rejected-match_external_bbo :
      (id : ℕ) (o : Order F) (e : Engine F R)
      → (match_external_bbo id o e).1.rejected_orders ≡ e.rejected_orders
  unfolding match_external_bbo put_report
  rejected-match_external_bbo id o e = ground arith

  rejected-symbol_id :
      (e : Engine F R) (symbol : List ℕ)
      → (symbol_id e symbol).1.rejected_orders ≡ e.rejected_orders
  unfolding symbol_id
  rejected-symbol_id e symbol = ground arith

  rejected-accept_order :
      (id : ℕ) (o : Order F) (e : Engine F R)
      → (accept_order id o e).rejected_orders ≡ e.rejected_orders
  unfolding accept_order execute_order put_report
  rejected-accept_order id o e =
      let (left, e1) = match_external_bbo id o e in
      ground (
        arith,
        rejected-match_external_bbo id o e,
        rejected-match_order id left (gtc? o.time_in_force) e1,
      )

  -- What an order must be to be taken: it has an id that no working order has, a quantity on the lot grid
  -- that is as large as the smallest one allowed, and something left of it, at most all.
  pub record WellFormed (e : Engine F R) (o : Order F) : Type 0 where
    pub has_id : o.id ≢ 0
    pub has_quantity : o.qty ≢ 0
    pub has_remaining : o.remaining ≢ 0
    pub within_quantity : o.remaining ≤ o.qty
    pub new_id : lookup o.id e.order_index ≡ none
    pub on_grid : o.qty % e.lot_size ≡ 0
    pub large_enough : e.min_order_quantity ≤ o.qty

  -- Then the two tests of the code let it through, and only then.
  WellFormed-passes :
      (o : Order F) (e : Engine F R) → WellFormed e o → (malformed e o || off_lot e o) ≡ false
  unfolding malformed off_lot
  WellFormed-passes o e w = ground (
    arith, w.has_id, w.has_quantity, w.has_remaining, w.within_quantity, w.new_id, w.on_grid,
    w.large_enough,
  )

  passes-WellFormed :
      (o : Order F) (e : Engine F R) → (malformed e o || off_lot e o) ≡ false → WellFormed e o
  unfolding malformed off_lot
  passes-WellFormed o e h = record {
    has_id = λ z. ground (arith, h, z);
    has_quantity = λ z. ground (arith, h, z);
    has_remaining = λ z. ground (arith, h, z);
    within_quantity = ground (arith, h);
    new_id = ground (arith, h);
    on_grid = ground (arith, h);
    large_enough = ground (arith, h);
  }

  -- The count of refusals stays for an order whose id is not 0 and not in the index of the working orders,
  -- whose quantity is not 0, on the lot grid and no smaller than the least allowed, and whose remaining
  -- quantity is not 0 and no larger than its quantity. For any other order that count grows by one, in 64
  -- bits, and nothing else changes.
  pub send_order_now-refuses :
      (o : Order F) (e : Engine F R)
      → (WellFormed e o → (send_order_now o e).rejected_orders ≡ e.rejected_orders)
        × ((WellFormed e o → ⊥)
            → send_order_now o e ≡ record e { rejected_orders = add64 e.rejected_orders 1 })
  unfolding send_order_now reject_order
  send_order_now-refuses o e = (
    λ w.
        rw (WellFormed-passes o e w)
          (rejected-accept_order _ o (symbol_id e o.symbol).1 ∙ rejected-symbol_id e o.symbol),
    λ bad. elim (Bool-cases (malformed e o || off_lot e o)) [
      | inl refused ↦ rw refused
      | inr passed ↦ absurd (bad (passes-WellFormed o e passed))
    ],
  )
