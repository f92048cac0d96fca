-- ===== src/Exchange/Engine/Pointers/Events.antt =====
-- The market events, and any history of calls, keep every pointer of `order_index_` on a resting order.
use toy_quant_v.Base.{
  ℕ, ℤ, ◌≡◌, refl, ap, false, List, [], ◌∷◌, some, inl, inr, Option-cases, arith, ◌==◌, ==ℤ→≡,
}
use toy_quant_v.Base.Maps.{lookup, insert, lookup-insert}
use toy_quant_v.Common.Types.{BboQuote, MarketTrade, Side}
use toy_quant_v.Common.Float.{Float}
use toy_quant_v.Common.Fees.{FeeSchedule}
use toy_quant_v.Exchange.Order.{Order, OrderSide}
use toy_quant_v.Exchange.Queue.{Random, removes_nothing}
use toy_quant_v.Exchange.Book.{PriceLevel, levels_of, with_levels, find_level, put_level}
use toy_quant_v.Exchange.Book.Levels.{find_level-put_level}
use toy_quant_v.Exchange.Sweep.{Place}
use toy_quant_v.Exchange.Sweep.Index.{rests}
use toy_quant_v.Exchange.Engine.{Engine, MatchingEngineConfig, new_engine, book_at}
use toy_quant_v.Exchange.Engine.Match.{process_market_order, scale_arrival}
use toy_quant_v.Exchange.Engine.Send.{send_order}
use toy_quant_v.Exchange.Engine.Cancel.{cancel_order, deref}
use toy_quant_v.Exchange.Engine.Feed.{
  is_usable_quote, count_quantity_change, change_level, apply_quantity_change, process_bbo_for,
  begin_event, drop_bbo, process_bbo, requeue, store_bbo, process_l2_top, note_trade, consume_touch,
  process_market_trade,
}
use toy_quant_v.Exchange.Engine.Pointers.{
  NoDangling, NoDangling-frame, match_order-NoDangling, deref-NoDangling,
}
use toy_quant_v.Exchange.Engine.Pointers.Orders.{
  if-NoDangling, symbol_id-NoDangling, send_order-NoDangling, advance_to-NoDangling,
  cancel_order-NoDangling, apply_pending_cancels-NoDangling,
}

module _ {F R : Type 0} where
  -- A level that keeps its orders.
  requeued : ℕ → OrderSide → ℤ → PriceLevel F → Engine F R → Engine F R
  requeued id side tick level e =
      let book = book_at e id in
      record e {
        books =
            insert id (with_levels side (put_level side tick level (levels_of side book)) book)
              e.books;
      }

  requeued-NoDangling :
      (id : ℕ) (side : OrderSide) (tick : ℤ) (old new : PriceLevel F) (e : Engine F R)
      → find_level tick (levels_of side (book_at e id)) ≡ some old
      → new.orders ≡ old.orders
      → NoDangling e
      → NoDangling (requeued id side tick new e)
  unfolding requeued book_at
  requeued-NoDangling id side tick old new e hit same v = record {
    rests_on = λ k p h.
        let book = book_at e id in
        let levels = levels_of side book in
        ground (
          arith,
          v.rests_on k p h,
          lookup-insert id p.symbol_id (with_levels side (put_level side tick new levels) book)
              e.books,
          find_level-put_level side tick p.tick new levels,
          ==ℤ→≡ tick p.tick,
          ap (rests k) same,
        );
  }

module _ {F R : Type 0} ⦃fl : Float F⦄ where
  count-NoDangling :
      (side : OrderSide) (n : ℕ) (e : Engine F R)
      → NoDangling e
      → NoDangling (count_quantity_change side n e)
  unfolding count_quantity_change
  count-NoDangling OrderSide.buy n e v = NoDangling-frame e _ refl refl v
  count-NoDangling OrderSide.sell n e v = NoDangling-frame e _ refl refl v

  begin_event-NoDangling : (ts : ℕ) (e : Engine F R) → NoDangling e → NoDangling (begin_event ts e)
  unfolding begin_event
  begin_event-NoDangling ts e v = advance_to-NoDangling ts _ (NoDangling-frame e _ refl refl v)

  process_market_order-NoDangling :
      (id : ℕ) (symbol : List ℕ) (side : Side) (price : F) (n ts : ℕ) (e : Engine F R)
      → NoDangling e
      → NoDangling (process_market_order id symbol side price n ts e)
  unfolding process_market_order
  process_market_order-NoDangling id symbol Side.unknown price n ts e v =
      if-NoDangling (n == 0) e e v v
  process_market_order-NoDangling id symbol Side.buy price n ts e v =
      if-NoDangling (n == 0) e _ v (match_order-NoDangling id _ false e v)
  process_market_order-NoDangling id symbol Side.sell price n ts e v =
      if-NoDangling (n == 0) e _ v (match_order-NoDangling id _ false e v)

  note_trade-NoDangling :
      (id : ℕ) (t : MarketTrade F) (e : Engine F R) → NoDangling e → NoDangling (note_trade id t e)
  unfolding note_trade
  note_trade-NoDangling id t e v = NoDangling-frame e _ (ground arith) (ground arith) v

  consume_touch-NoDangling :
      (id : ℕ) (t : MarketTrade F) (e : Engine F R)
      → NoDangling e
      → NoDangling (consume_touch id t e)
  unfolding consume_touch
  consume_touch-NoDangling id t e v = NoDangling-frame e _ (ground arith) (ground arith) v

module _ {F R : Type 0} ⦃fl : Float F⦄ ⦃rnd : Random F R⦄ where
  change_level-NoDangling :
      (id : ℕ) (side : OrderSide) (tick : ℤ) (n m : ℕ) (level : PriceLevel F) (e : Engine F R)
      → find_level tick (levels_of side (book_at e id)) ≡ some level
      → NoDangling e
      → NoDangling (change_level id side tick n m level e)
  unfolding change_level requeued
  change_level-NoDangling id side tick n m level e hit v =
      if-NoDangling (level.external_queue_ahead == 0) e _ v (
        count-NoDangling side _ _ (
          NoDangling-frame (requeued id side tick _ e) _ refl refl
            (requeued-NoDangling id side tick level _ e hit refl v)))

  apply_quantity_change-NoDangling :
      (id : ℕ) (side : OrderSide) (tick : ℤ) (n m : ℕ) (e : Engine F R)
      → NoDangling e
      → NoDangling (apply_quantity_change id side tick n m e)
  unfolding apply_quantity_change
  apply_quantity_change-NoDangling id side tick n m e v =
      if-NoDangling (n == 0) e _ v
        (elim (Option-cases (find_level tick (levels_of side (book_at e id)))) [
          | inl miss ↦ rw miss v
          | inr (level, hit) ↦ rw hit (change_level-NoDangling id side tick n m level e hit v)
        ])

  store_bbo-NoDangling :
      (id : ℕ) (q : BboQuote F) (e : Engine F R) → NoDangling e → NoDangling (store_bbo id q e)
  unfolding store_bbo
  store_bbo-NoDangling id q e v = NoDangling-frame e _ refl refl v

  process_bbo_for-NoDangling :
      (id : ℕ) (q : BboQuote F) (e : Engine F R)
      → NoDangling e
      → NoDangling (process_bbo_for id q e)
  unfolding process_bbo_for lookup find_level removes_nothing insert apply_quantity_change book_at
  process_bbo_for-NoDangling id q e v =
      let stored = store_bbo-NoDangling id q e v in
      search (if-NoDangling, apply_quantity_change-NoDangling) depth 7

  requeue-NoDangling :
      (id : ℕ) (side : OrderSide) (tick : ℤ) (n : ℕ) (e : Engine F R)
      → NoDangling e
      → NoDangling (requeue id side tick n e)
  unfolding requeue requeued
  requeue-NoDangling id side tick n e v =
      elim (Option-cases (find_level tick (levels_of side (book_at e id)))) [
        | inl miss ↦ rw (miss, requeue) v
        | inr (level, hit) ↦
            rw (hit, requeue)
              (requeued-NoDangling id side tick level
                (record level { external_queue_ahead = scale_arrival e n }) e hit refl v)
      ]

  drop_bbo-NoDangling : (id : ℕ) (e : Engine F R) → NoDangling e → NoDangling (drop_bbo id e)
  unfolding drop_bbo
  drop_bbo-NoDangling id e v = NoDangling-frame e _ refl refl v

  process_bbo-NoDangling :
      (q : BboQuote F) (e : Engine F R) → NoDangling e → NoDangling (process_bbo q e)
  unfolding process_bbo
  process_bbo-NoDangling q e v =
      search
        (
          if-NoDangling, symbol_id-NoDangling, apply_pending_cancels-NoDangling,
          begin_event-NoDangling, drop_bbo-NoDangling, process_bbo_for-NoDangling,
        )
        depth 7

  process_l2_top-NoDangling :
      (q : BboQuote F) (e : Engine F R) → NoDangling e → NoDangling (process_l2_top q e)
  unfolding process_l2_top lookup find_level is_usable_quote book_at
  process_l2_top-NoDangling q e v =
      let v1 =
        symbol_id-NoDangling _ q.symbol
          (apply_pending_cancels-NoDangling _ (begin_event-NoDangling q.ts e v)) in
      search
        (
          if-NoDangling, NoDangling-frame, process_bbo_for-NoDangling, drop_bbo-NoDangling,
          requeue-NoDangling,
        )
        depth 9

module _ {F R : Type 0} ⦃fl : Float F⦄ where
  process_market_trade-NoDangling :
      (t : MarketTrade F) (e : Engine F R) → NoDangling e → NoDangling (process_market_trade t e)
  unfolding process_market_trade
  process_market_trade-NoDangling t e v =
      let v1 = symbol_id-NoDangling _ t.symbol (begin_event-NoDangling t.ts e v) in
      apply_pending_cancels-NoDangling _ (
        process_market_order-NoDangling _ t.symbol t.aggressor_side t.price t.quantity t.ts _
          (consume_touch-NoDangling _ t _ (note_trade-NoDangling _ t _ v1)))

-- A call of the engine.
pub data Call (F : Type 0) : Type 0 where
  send : Order F → Call F
  cancel : ℕ → Call F
  bbo : BboQuote F → Call F
  l2_top : BboQuote F → Call F
  market_trade : MarketTrade F → Call F

module _ {F R : Type 0} ⦃fl : Float F⦄ ⦃rnd : Random F R⦄ where
  unfoldable pub call : Engine F R → Call F → Engine F R
  call e (send o) = send_order o e
  call e (cancel id) = cancel_order id e
  call e (bbo q) = process_bbo q e
  call e (l2_top q) = process_l2_top q e
  call e (market_trade t) = process_market_trade t e

  unfoldable pub calls : Engine F R → List (Call F) → Engine F R
  calls e [] = e
  calls e (c ∷ cs) = calls (call e c) cs

  call-NoDangling : (c : Call F) (e : Engine F R) → NoDangling e → NoDangling (call e c)
  unfolding call
  call-NoDangling (send o) e v = send_order-NoDangling o e v
  call-NoDangling (cancel id) e v = cancel_order-NoDangling id e v
  call-NoDangling (bbo q) e v = process_bbo-NoDangling q e v
  call-NoDangling (l2_top q) e v = process_l2_top-NoDangling q e v
  call-NoDangling (market_trade t) e v = process_market_trade-NoDangling t e v

  calls-NoDangling : (cs : List (Call F)) (e : Engine F R) → NoDangling e → NoDangling (calls e cs)
  unfolding calls
  calls-NoDangling [] e v = v
  calls-NoDangling (c ∷ cs) e v = calls-NoDangling cs (call e c) (call-NoDangling c e v)

module _ {F R : Type 0} (fl : Float F) (rnd : Random F R) where
  new_engine-NoDangling :
      (tick_size : F) (fees : FeeSchedule F) (config : MatchingEngineConfig F)
      → NoDangling (new_engine fl rnd tick_size fees config)
  unfolding new_engine lookup
  new_engine-NoDangling tick_size fees config = record { rests_on = λ k p h. absurd (cc) }

  -- After any history of calls of a new engine, each pointer of `order_index_` has a resting order
  -- behind it: the read through it in `cancel_order_immediate` finds one.
  pub deref-calls :
      (tick_size : F) (fees : FeeSchedule F) (config : MatchingEngineConfig F) (cs : List (Call F))
      (k : ℕ) (p : Place)
      → let e = calls ⦃fl = fl⦄ ⦃rnd = rnd⦄ (new_engine fl rnd tick_size fees config) cs in
        lookup k e.order_index ≡ some p → (o : Order F) × (deref e k p ≡ some o)
  deref-calls tick_size fees config cs k p h =
      deref-NoDangling _ k p
        (calls-NoDangling ⦃fl = fl⦄ ⦃rnd = rnd⦄ cs _ (new_engine-NoDangling tick_size fees config))
        h
