-- ===== src/Exchange/Engine/Feed.antt =====
-- `process_bbo`, `process_l2_top`, `process_market_trade` and `queue_ahead_at` of
-- src/exchange/matching_engine.cpp: the market events that drive the engine.
use toy_quant_v.Base.{
  ℕ, ℤ, ◌-◌, min, max, Bytes, Bool, not, ◌&&◌, ◌||◌, List, ◌∷◌, Option, none, some, ltb, ◌==◌,
  ◌==ℤ◌, if◌then◌else◌, add64,
}
use toy_quant_v.Base.Maps.{lookup, insert, erase, contains_key, contains}
use toy_quant_v.Common.Types.{Side, BboQuote, MarketTrade}
use toy_quant_v.Common.Float.{Float, to_price_tick}
use toy_quant_v.Exchange.Order.{OrderSide}
use toy_quant_v.Exchange.Queue.{Random, advance_quantity, removes_nothing}
use toy_quant_v.Exchange.Book.{PriceLevel, levels_of, with_levels, find_level, put_level}
use toy_quant_v.Exchange.Sweep.{is_empty}
use toy_quant_v.Exchange.Engine.{Engine, find_symbol, symbol_id, unknown_symbol, book_at}
use toy_quant_v.Exchange.Engine.Match.{scale_arrival, process_market_order}
use toy_quant_v.Exchange.Engine.Send.{advance_to}
use toy_quant_v.Exchange.Engine.Cancel.{apply_pending_cancels}

-- `map[id]` of the map of a side's last trade, where a missing entry is made with 0.
abbrev pub ts_at : ℕ → List (ℕ × ℕ) → ℕ
ts_at id m = elim (lookup id m) [ none ↦ 0 | some t ↦ t ]

abbrev pub reduction_of : Bool → ℕ → ℕ → ℕ
reduction_of same previous current = if same && ltb current previous then previous - current else 0

module _ {F : Type 0} ⦃fl : Float F⦄ where
  unfoldable pub is_usable_quote : BboQuote F → Bool
  is_usable_quote q =
      not (is_empty q.symbol)
      && fl.f_lt fl.f_zero q.bid_price
      && fl.f_lt fl.f_zero q.ask_price
      && fl.f_le q.bid_price q.ask_price

  abbrev pub moved : Option F → F → ℤ → Bool
  moved none tick_size tick = Bool.true
  moved (some price) tick_size tick = not (to_price_tick price tick_size ==ℤ tick)

  -- The displayed size that a public print takes, on the side that it hits.
  unfoldable pub consume_display : MarketTrade F → F → BboQuote F → BboQuote F
  consume_display t tick_size q = elim t.aggressor_side [
    | Side.unknown ↦ q
    | Side.sell ↦
        if to_price_tick t.price tick_size ==ℤ to_price_tick q.bid_price tick_size
        then record q { bid_quantity = q.bid_quantity - t.quantity }
        else q
    | Side.buy ↦
        if to_price_tick t.price tick_size ==ℤ to_price_tick q.ask_price tick_size
        then record q { ask_quantity = q.ask_quantity - t.quantity }
        else q
  ]

module _ {F R : Type 0} ⦃fl : Float F⦄ where
  unfoldable pub count_quantity_change : OrderSide → ℕ → Engine F R → Engine F R
  count_quantity_change OrderSide.buy n e = record e {
    buy_queue_from_quantity_changes = add64 e.buy_queue_from_quantity_changes n;
  }
  count_quantity_change OrderSide.sell n e = record e {
    sell_queue_from_quantity_changes = add64 e.sell_queue_from_quantity_changes n;
  }

  unfoldable pub begin_event : ℕ → Engine F R → Engine F R
  begin_event ts e = advance_to ts (record e { event_counter = add64 e.event_counter 1 })

  unfoldable pub drop_bbo : ℕ → Engine F R → Engine F R
  drop_bbo id e = record e { external_bbo = erase id e.external_bbo }

  -- The touch moved to `tick`: an order that rests there starts behind the size displayed now.
  unfoldable pub requeue : ℕ → OrderSide → ℤ → ℕ → Engine F R → Engine F R
  requeue id side tick displayed e =
      let book = book_at e id in
      elim (find_level tick (levels_of side book)) [
        | none ↦ e
        | some level ↦
            let level' = record level { external_queue_ahead = scale_arrival e displayed } in
            record e {
              books =
                  insert id
                    (with_levels side (put_level side tick level' (levels_of side book)) book)
                    e.books;
            }
      ]

  unfoldable pub note_trade : ℕ → MarketTrade F → Engine F R → Engine F R
  note_trade id t e = elim t.aggressor_side [
    | Side.unknown ↦ e
    | Side.sell ↦ record e {
      last_bid_trade_ts = insert id (max (ts_at id e.last_bid_trade_ts) t.ts) e.last_bid_trade_ts;
    }
    | Side.buy ↦ record e {
      last_ask_trade_ts = insert id (max (ts_at id e.last_ask_trade_ts) t.ts) e.last_ask_trade_ts;
    }
  ]

  unfoldable pub consume_touch : ℕ → MarketTrade F → Engine F R → Engine F R
  consume_touch id t e = elim (lookup id e.external_bbo) [
    | none ↦ e
    | some q ↦ record e {
      external_bbo = insert id (consume_display t e.tick_size q) e.external_bbo;
    }
  ]

  unfoldable pub process_market_trade : MarketTrade F → Engine F R → Engine F R
  process_market_trade t e =
      let (id, e1) = symbol_id (begin_event t.ts e) t.symbol in
      let e2 = consume_touch id t (note_trade id t e1) in
      apply_pending_cancels
        (process_market_order id t.symbol t.aggressor_side t.price t.quantity t.ts e2)

module _ {F R : Type 0} where
  -- `external_bbo_[id] = quote`, with the two look-ups by `[]` that make missing time stamps 0.
  unfoldable pub store_bbo : ℕ → BboQuote F → Engine F R → Engine F R
  store_bbo id quote e = record e {
    last_bid_trade_ts = insert id (ts_at id e.last_bid_trade_ts) e.last_bid_trade_ts;
    last_ask_trade_ts = insert id (ts_at id e.last_ask_trade_ts) e.last_ask_trade_ts;
    external_bbo = insert id quote e.external_bbo;
  }

module _ {F R : Type 0} ⦃fl : Float F⦄ ⦃rnd : Random F R⦄ where
  -- The lambda `apply_quantity_change`, on the level that it finds.
  unfoldable pub change_level : ℕ → OrderSide → ℤ → ℕ → ℕ → PriceLevel F → Engine F R → Engine F R
  change_level id side tick reduction previous level e =
      let (advance, model) =
        advance_quantity fl rnd e.queue_model reduction previous level.external_queue_ahead in
      let inferred = min level.external_queue_ahead advance in
      let level' = record level { external_queue_ahead = level.external_queue_ahead - inferred } in
      let book = book_at e id in
      if level.external_queue_ahead == 0
      then e
      else count_quantity_change side inferred (record e {
        queue_model = model;
        books =
            insert id (with_levels side (put_level side tick level' (levels_of side book)) book)
              e.books;
      })

  unfoldable pub apply_quantity_change : ℕ → OrderSide → ℤ → ℕ → ℕ → Engine F R → Engine F R
  apply_quantity_change id side tick reduction previous e =
      if reduction == 0 then e else elim (find_level tick (levels_of side (book_at e id))) [
        | none ↦ e
        | some level ↦ change_level id side tick reduction previous level e
      ]

  -- What `process_bbo_for` remembers of the previous quote before the store: per side, whether the
  -- price is the same, and the size; and the time stamp.
  unfoldable pub process_bbo_for : ℕ → BboQuote F → Engine F R → Engine F R
  process_bbo_for id quote e =
      let bid_tick = to_price_tick quote.bid_price e.tick_size in
      let ask_tick = to_price_tick quote.ask_price e.tick_size in
      let old = lookup id e.external_bbo in
      let bid_reduction : ℕ = elim old [
        | none ↦ 0
        | some q ↦
            reduction_of (to_price_tick q.bid_price e.tick_size ==ℤ bid_tick) q.bid_quantity
              quote.bid_quantity
      ] in
      let ask_reduction : ℕ = elim old [
        | none ↦ 0
        | some q ↦
            reduction_of (to_price_tick q.ask_price e.tick_size ==ℤ ask_tick) q.ask_quantity
              quote.ask_quantity
      ] in
      let old_bid : ℕ = elim old [ none ↦ 0 | some q ↦ q.bid_quantity ] in
      let old_ask : ℕ = elim old [ none ↦ 0 | some q ↦ q.ask_quantity ] in
      let old_ts : ℕ = elim old [ none ↦ 0 | some q ↦ q.ts ] in
      let bid_ts = ts_at id e.last_bid_trade_ts in
      let ask_ts = ts_at id e.last_ask_trade_ts in
      let stored = record e {
        last_bid_trade_ts = insert id bid_ts e.last_bid_trade_ts;
        last_ask_trade_ts = insert id ask_ts e.last_ask_trade_ts;
        external_bbo = insert id quote e.external_bbo;
      } in
      let after_bid =
        if ltb old_ts bid_ts
        then stored
        else apply_quantity_change id OrderSide.buy bid_tick bid_reduction old_bid stored in
      let after_ask =
        if ltb old_ts ask_ts
        then after_bid
        else apply_quantity_change id OrderSide.sell ask_tick ask_reduction old_ask after_bid in
      if not (contains_key id e.queue_ahead_ids)
        || not (contains id e.books)
        || removes_nothing e.queue_model
      then stored
      else after_ask

  unfoldable pub process_bbo : BboQuote F → Engine F R → Engine F R
  process_bbo quote e =
      let e1 = apply_pending_cancels (begin_event quote.ts e) in
      let id = find_symbol e1 quote.symbol in
      let (id', e2) = symbol_id e1 quote.symbol in
      if not (is_usable_quote quote)
      then if id == unknown_symbol then e1 else drop_bbo id e1
      else process_bbo_for id' quote e2

  unfoldable pub process_l2_top : BboQuote F → Engine F R → Engine F R
  process_l2_top quote e =
      let (id, e1) = symbol_id (apply_pending_cancels (begin_event quote.ts e)) quote.symbol in
      let bid_tick = to_price_tick quote.bid_price e.tick_size in
      let ask_tick = to_price_tick quote.ask_price e.tick_size in
      let old = lookup id e1.l2_top_bbo in
      let old_bid : Option F = elim old [ none ↦ none | some q ↦ some q.bid_price ] in
      let old_ask : Option F = elim old [ none ↦ none | some q ↦ some q.ask_price ] in
      let e2 = record e1 {
        queue_ahead_ids = id ∷ e1.queue_ahead_ids;
        l2_top_bbo = insert id quote e1.l2_top_bbo;
      } in
      let e3 = if is_usable_quote quote then process_bbo_for id quote e2 else drop_bbo id e2 in
      let e4 =
        if moved old_bid e.tick_size bid_tick
        then requeue id OrderSide.buy bid_tick quote.bid_quantity e3
        else e3 in
      let e5 =
        if moved old_ask e.tick_size ask_tick
        then requeue id OrderSide.sell ask_tick quote.ask_quantity e4
        else e4 in
      if contains id e3.books then e5 else e3

module _ {F R : Type 0} ⦃fl : Float F⦄ where
  -- `Side::Buy` selects the bids, each other side the asks.
  unfoldable pub queue_ahead_at : Engine F R → Bytes → Side → F → ℕ
  queue_ahead_at e symbol side price =
      let id = find_symbol e symbol in
      let own : OrderSide = elim side [
        | Side.unknown ↦ OrderSide.sell
        | Side.buy ↦ OrderSide.buy
        | Side.sell ↦ OrderSide.sell
      ] in
      if id == unknown_symbol
      then 0
      else elim (find_level (to_price_tick price e.tick_size) (levels_of own (book_at e id))) [
        | none ↦ 0
        | some level ↦ level.external_queue_ahead
      ]
