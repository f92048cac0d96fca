-- ===== src/Exchange/Engine/Fok.antt =====
-- Fill-or-kill: the pre-check of `send_order_now` against what the matcher then does.
use toy_quant_v.Base.{
  ℕ, ℤ, ◌+◌, ◌-◌, ◌≤◌, ◌<◌, min, inl, inr, ◌⊎◌, ◌≡◌, refl, ap, ◌∙◌, Option-cases, true, false, List,
  [], ◌∷◌, arith, bytes_eq, add64, add64-le, sub64-exact, u64_mod,
}
use toy_quant_v.Common.Types.{TimeInForce, ExecType}
use toy_quant_v.Common.Float.{Float}
use toy_quant_v.Common.Fees.{FeeSchedule}
use toy_quant_v.Exchange.Order.{Order, OrderSide, CancelReason}
use toy_quant_v.Exchange.Book.{Levels, levels_of}
use toy_quant_v.Exchange.Sweep.{
  Sweep, consume_queue, fill_orders, fill_one, match_levels, pop_order, is_self_trade, out_of_reach,
  state_report, trade_report, market_owner,
}
use toy_quant_v.Exchange.Sweep.Volume.{
  volume, prevented, taker?, match_levels-Matches, fill_orders-stops, fill_one-Balanced,
}
use toy_quant_v.Common.Float.{to_price_tick}
use toy_quant_v.Exchange.Engine.{Engine, Terms, book_at, put_report}
use toy_quant_v.Exchange.Engine.Match.{opposite, match_order, match_side, start_sweep, end_sweep}
use toy_quant_v.Exchange.Engine.Touch.{
  add_level, add_levels, external_touch, capped_external_quantity, external_available,
  internal_available, match_external_bbo,
}
use toy_quant_v.Exchange.Engine.Send.{execute_order, fok_short, accept_order}

pub reports-end_sweep :
    {F R : Type 0} (side : OrderSide) (s : Sweep F) (e : Engine F R)
    → (end_sweep side s e).reports ≡ s.reports
unfolding end_sweep
reports-end_sweep OrderSide.buy s e = refl
reports-end_sweep OrderSide.sell s e = refl

module _ {F : Type 0} where
  is_self_trade-owner :
      (r o inc : Order F) → inc.owner ≡ o.owner → is_self_trade r inc ≡ is_self_trade r o
  unfolding is_self_trade
  is_self_trade-owner r o inc e = rw e

module _ {F : Type 0} ⦃fl : Float F⦄ (fs : FeeSchedule F) (tick_size : F) (inc o : Order F) where
  -- With nothing to fill the loops change nothing.
  fill_orders-done :
      (best : ℤ) (os : List (Order F)) (s : Sweep F)
      → s.qty ≡ 0
      → fill_orders fs tick_size inc best os s ≡ (os, s)
  unfolding fill_orders
  fill_orders-done best [] s h = refl
  fill_orders-done best (o ∷ os) s h = ground arith

  fill_one-qty :
      (best : ℤ) (r : Order F) (n : ℕ) (s : Sweep F)
      → (fill_one fs tick_size inc best r n s).qty ≡ s.qty - n
  unfolding fill_one
  fill_one-qty best r n s = refl

  module _ (same_owner : inc.owner ≡ o.owner) where
    -- What the walk of the pre-check counted covers what the loop over the same orders fills: while
    -- the walk goes on, `bound` stays ahead of it, and where it stops `bound` is its sum.
    fill_orders-covered :
        (best : ℤ) (os : List (Order F)) (acc bound : ℕ) (s : Sweep F)
        → (s.qty ≡ 0) ⊎ (s.qty + acc ≤ bound)
        → ((add_level o os acc).1 ≡ false → bound ≡ (add_level o os acc).0)
        → let t = (fill_orders fs tick_size inc best os s).1 in
          ((t.qty ≡ 0)
            ⊎ (((add_level o os acc).1 ≡ true) × (t.qty + (add_level o os acc).0 ≤ bound)))
          × (prevented t.reports ≡ prevented s.reports)
    unfolding fill_orders add_level
    fill_orders-covered best [] acc bound s h k = ground arith
    fill_orders-covered best (r ∷ os) acc bound s h k =
        let done = fill_one fs tick_size inc best r (min s.qty r.remaining) s in
        let popped = pop_order r.id done in
        ground (
          arith,
          is_self_trade-owner r o inc same_owner,
          add64-le acc r.remaining,
          fill_one-Balanced fs tick_size inc best r (min s.qty r.remaining) s,
          fill_one-qty best r (min s.qty r.remaining) s,
          fill_orders-done best os popped,
          fill_orders-covered best os (add64 acc r.remaining) bound popped,
        )

    -- A sweep of the levels fills all that the walk over them counted.
    match_levels-covered :
        (limit : ℤ) (ls : Levels F) (acc : ℕ) (s : Sweep F)
        → inc.side ≡ o.side
        → bytes_eq inc.owner market_owner ≡ false
        → (s.qty ≡ 0) ⊎ (s.qty + acc ≤ add_levels o limit ls acc)
        → let t = (match_levels fs tick_size inc limit ls s).1 in
          (t.qty ≡ 0) × (prevented t.reports ≡ prevented s.reports)
    unfolding match_levels add_levels consume_queue
    match_levels-covered limit [] acc s side venue h = ground arith
    match_levels-covered limit ((best, level) ∷ ls) acc s side venue h =
        let (sum, more) = add_level o level.orders acc in
        let (os, t) = fill_orders fs tick_size inc best level.orders s in
        let same_reach : out_of_reach inc.side limit best ≡ out_of_reach o.side limit best =
          ap (λ x. out_of_reach x limit best) side in
        ground (
          arith,
          same_reach,
          fill_orders-covered best level.orders acc (add_levels o limit ((best, level) ∷ ls) acc) s,
          fill_orders-stops fs tick_size inc best level.orders s,
          match_levels-covered limit ls sum t side venue,
        )

module _ {F R : Type 0} ⦃fl : Float F⦄ where
  -- The match of an order whose quantity the walk counted trades all of it.
  match_order-covered :
      (id : ℕ) (o inc : Order F) (e : Engine F R)
      → inc.owner ≡ o.owner
      → inc.side ≡ o.side
      → bytes_eq inc.owner market_owner ≡ false
      → inc.remaining
        ≤ add_levels o
            (to_price_tick inc.price e.tick_size)
            (levels_of (opposite inc.side) (book_at e id))
            0
      → let (e', left) = match_order id inc false e in
        (left ≡ 0) × (volume taker? e'.reports ≡ volume taker? e.reports + inc.remaining)
  unfolding match_order match_side put_report state_report start_sweep volume
  match_order-covered id o inc e owner side venue h =
      let tick = to_price_tick inc.price e.tick_size in
      let levels = levels_of (opposite inc.side) (book_at e id) in
      let s = start_sweep e inc in
      ground (
        arith,
        match_levels-covered e.fee_schedule e.tick_size inc o owner tick levels 0 s side venue,
        match_levels-Matches e.fee_schedule e.tick_size inc tick levels s,
        reports-end_sweep inc.side (match_levels e.fee_schedule e.tick_size inc tick levels s).1 e,
      )

  -- What `match_external_bbo` leaves to the book, and what its report says was traded.
  record TouchFill (id : ℕ) (o : Order F) (e : Engine F R) : Type 0 where
    split :
        (match_external_bbo id o e).0.remaining + min o.remaining (external_available e o id)
        ≡ o.remaining
    traded :
        volume taker? (match_external_bbo id o e).1.reports
        ≡ volume taker? e.reports + min o.remaining (external_available e o id)
    same_owner : (match_external_bbo id o e).0.owner ≡ o.owner
    same_side : (match_external_bbo id o e).0.side ≡ o.side
    same_price : (match_external_bbo id o e).0.price ≡ o.price
    same_books : (match_external_bbo id o e).1.books ≡ e.books
    same_terms : (match_external_bbo id o e).1.terms ≡ e.terms

  match_external_bbo-TouchFill :
      (id : ℕ) (o : Order F) (e : Engine F R) → o.remaining < u64_mod → TouchFill id o e
  unfolding match_external_bbo external_available put_report state_report trade_report volume
  match_external_bbo-TouchFill id o e h = elim (Option-cases (external_touch e o id)) [
    | inl miss ↦ ground arith
    | inr ((quote, price, displayed), hit) ↦
        let n = min o.remaining (capped_external_quantity e displayed) in
        let left = sub64-exact o.remaining n h (omega arith) in ground (arith, left)
  ]

  book_at-books : (e e' : Engine F R) (id : ℕ) → e'.books ≡ e.books → book_at e' id ≡ book_at e id
  unfolding book_at
  book_at-books e e' id h = rw h

  -- What is left after the touch is covered by the same walk as the whole order.
  left-covered :
      (id : ℕ) (o : Order F) (e : Engine F R)
      → o.remaining < u64_mod
      → let (left, e1) = match_external_bbo id o e in
        add_levels o
          (to_price_tick left.price e1.tick_size)
          (levels_of (opposite left.side) (book_at e1 id))
          0
        ≡ add_levels o
            (to_price_tick o.price e.tick_size)
            (levels_of (opposite o.side) (book_at e id))
            0
  left-covered id o e h =
      let x = match_external_bbo-TouchFill id o e h in
      let (left, e1) = match_external_bbo id o e in
      rw (
        x.same_side,
        x.same_price,
        ap (λ (t : Terms F). t.tick_size) x.same_terms,
        book_at-books e e1 id x.same_books,
      )

  -- A fill-or-kill order either trades its whole quantity, or is cancelled with nothing traded and
  -- nothing changed but its one report. It is so for every quantity of 64 bits and every owner but the
  -- name of the venue's own prints, and needs no bound on the sizes in the book: a sum that wraps only
  -- kills more orders.
  pub fok-all_or_nothing :
      (id : ℕ) (o : Order F) (e : Engine F R)
      → o.time_in_force ≡ TimeInForce.fok
      → o.remaining < u64_mod
      → bytes_eq o.owner market_owner ≡ false
      → (volume taker? (accept_order id o e).reports ≡ volume taker? e.reports + o.remaining)
        ⊎ (accept_order id o e
            ≡ put_report
                (state_report o ExecType.cancelled o.price o.remaining o.ts CancelReason.fok)
                e)
  unfolding accept_order fok_short execute_order internal_available
  fok-all_or_nothing id o e fok small owner =
      let (left, e1) = match_external_bbo id o e in
      let x = match_external_bbo-TouchFill id o e small in
      let venue = ap (λ b. bytes_eq b market_owner) x.same_owner ∙ owner in
      let internal = internal_available e (book_at e id) o in
      ground (
        arith,
        x,
        venue,
        left-covered id o e small,
        add64-le (external_available e o id) internal,
        match_order-covered id o left e1 x.same_owner x.same_side venue,
      )
