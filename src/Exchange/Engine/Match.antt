-- ===== src/Exchange/Engine/Match.antt =====
-- `match`, `match_side` and `process_market_order` of src/exchange/matching_engine.cpp.
use toy_quant_v.Base.{
  ℕ, ℤ, Bytes, Bool, false, not, ◌&&◌, ◌||◌, [], ◌∷◌, ◌++◌, Option, none, some, ltb, ◌==◌,
  if◌then◌else◌,
}
use toy_quant_v.Base.Maps.{lookup, insert, contains_key}
use toy_quant_v.Common.Types.{Side, ExecType, TimeInForce}
use toy_quant_v.Common.Float.{Float, to_price_tick}
use toy_quant_v.Exchange.Order.{Order, OrderSide, OrderType, CancelReason}
use toy_quant_v.Exchange.Book.{
  PriceLevel, MeOrderBook, levels_of, with_levels, find_level, put_level, empty_level,
}
use toy_quant_v.Exchange.Sweep.{
  Sweep, match_levels, state_report, filled_or_partial, is_empty, market_owner,
}
use toy_quant_v.Exchange.Engine.{Engine, find_symbol, unknown_symbol, book_at, put_report}

abbrev pub opposite : OrderSide → OrderSide
opposite OrderSide.buy = OrderSide.sell
opposite OrderSide.sell = OrderSide.buy

module _ {F : Type 0} where
  abbrev pub level_or_new : Option (PriceLevel F) → PriceLevel F
  level_or_new none = empty_level
  level_or_new (some l) = l

  unfoldable pub market_order : Bytes → OrderSide → F → ℕ → ℕ → Order F
  market_order symbol side price quantity ts = record {
    id = 0;
    symbol = symbol;
    side = side;
    order_type = OrderType.market;
    price = price;
    qty = quantity;
    remaining = quantity;
    ts = ts;
    owner = market_owner;
    time_in_force = TimeInForce.gtc;
  }

module _ {F R : Type 0} where
  unfoldable pub end_sweep : OrderSide → Sweep F → Engine F R → Engine F R
  end_sweep OrderSide.buy s e = record e {
    order_index = s.order_index;
    reports = s.reports;
    queue_ahead_consumed = s.queue_ahead_consumed;
    sell_queue_ahead_consumed = s.side_consumed;
    sell_queue_ahead_cleared = s.side_cleared;
  }
  end_sweep OrderSide.sell s e = record e {
    order_index = s.order_index;
    reports = s.reports;
    queue_ahead_consumed = s.queue_ahead_consumed;
    buy_queue_ahead_consumed = s.side_consumed;
    buy_queue_ahead_cleared = s.side_cleared;
  }

module _ {F R : Type 0} ⦃fl : Float F⦄ where
  open fl use {f_half, f_one, f_le, f_add, f_mul, of_u64, to_u64}

  unfoldable pub scale_arrival : Engine F R → ℕ → ℕ
  scale_arrival e displayed =
      if f_le f_one e.arrival_share
      then displayed
      else to_u64 (f_add (f_mul (of_u64 displayed) e.arrival_share) f_half)

  unfoldable pub displayed_quantity_ahead : Engine F R → Order F → ℕ
  displayed_quantity_ahead e o =
      let id = find_symbol e o.symbol in
      if id == unknown_symbol || not (contains_key id e.queue_ahead_ids)
      then 0
      else elim (lookup id e.external_bbo) [
        | none ↦ 0
        | some quote ↦ elim o.side [
          | OrderSide.buy ↦ scale_arrival e quote.bid_quantity
          | OrderSide.sell ↦ scale_arrival e quote.ask_quantity
        ]
      ]

  -- The sweep as the engine starts it, and the engine with what the sweep wrote. A sweep of the asks
  -- counts on the sell side, one of the bids on the buy side.
  unfoldable pub start_sweep : Engine F R → Order F → Sweep F
  start_sweep e o = record {
    qty = o.remaining;
    order_index = e.order_index;
    reports = e.reports;
    queue_ahead_consumed = e.queue_ahead_consumed;
    side_consumed = elim o.side [
      | OrderSide.buy ↦ e.sell_queue_ahead_consumed
      | OrderSide.sell ↦ e.buy_queue_ahead_consumed
    ];
    side_cleared = elim o.side [
      | OrderSide.buy ↦ e.sell_queue_ahead_cleared
      | OrderSide.sell ↦ e.buy_queue_ahead_cleared
    ];
  }

  -- The level as `rest_unfilled` leaves it: a new level stands behind the displayed size.
  unfoldable pub join_level : Engine F R → Order F → PriceLevel F → PriceLevel F
  join_level e o level = record {
    orders = level.orders ++ o ∷ [];
    external_queue_ahead =
        if is_empty level.orders then displayed_quantity_ahead e o else level.external_queue_ahead;
  }

  -- `rest_unfilled`, for an order whose `remaining` is what is unfilled.
  unfoldable pub rest_unfilled :
      ℕ → Order F → ℤ → MeOrderBook F → Engine F R → MeOrderBook F × Engine F R
  rest_unfilled id o tick book e =
      let levels = levels_of o.side book in
      let level = join_level e o (level_or_new (find_level tick levels)) in
      (
        with_levels o.side (put_level o.side tick level levels) book,
        put_report (state_report o ExecType.resting o.price o.remaining o.ts CancelReason.none)
            (record e {
              order_index =
                  insert o.id (record { symbol_id = id; side = o.side; tick = tick }) e.order_index;
            }),
      )

  -- `match_side` on the book of symbol `id`: the book, the engine, and the quantity left.
  unfoldable pub match_side :
      ℕ → MeOrderBook F → Order F → Bool → Engine F R → MeOrderBook F × Engine F R × ℕ
  match_side id book o rest_incoming e =
      let tick = to_price_tick o.price e.tick_size in
      let against = opposite o.side in
      let (levels, s) =
        match_levels e.fee_schedule e.tick_size o tick (levels_of against book) (start_sweep e o) in
      let swept = with_levels against levels book in
      let left = record o { remaining = s.qty } in
      let e1 = end_sweep o.side s e in
      let e2 =
        if ltb s.qty o.remaining
        then put_report
            (state_report o (filled_or_partial s.qty) o.price s.qty o.ts CancelReason.none) e1
        else e1 in
      let (rested, e3) = rest_unfilled id left tick swept e2 in
      if ltb 0 s.qty && rest_incoming then (rested, e3, s.qty) else (swept, e2, s.qty)

  -- `match` with its `auto& book = books_[id]`, which `send_order_now` and `process_market_order` take.
  unfoldable pub match_order : ℕ → Order F → Bool → Engine F R → Engine F R × ℕ
  match_order id o rest_incoming e =
      let (book, e', left) = match_side id (book_at e id) o rest_incoming e in
      (record e' { books = insert id book e'.books }, left)

  unfoldable pub process_market_order : ℕ → Bytes → Side → F → ℕ → ℕ → Engine F R → Engine F R
  process_market_order id symbol side price quantity ts e = if quantity == 0 then e else elim side [
    | Side.unknown ↦ e
    | Side.buy ↦ (match_order id (market_order symbol OrderSide.buy price quantity ts) false e).0
    | Side.sell ↦ (match_order id (market_order symbol OrderSide.sell price quantity ts) false e).0
  ]
