-- ===== src/Orderbook/View.antt =====
-- What `L2OrderBook` (src/orderbook/l2_orderbook.cpp) answers: the touch, the view of src/orderbook/
-- l2_market_view.h that the strategies read, a level and the depth of a side.
use toy_quant_v.Base.{ℕ, pos, Option, none, some, ltb, leb, if◌then◌else◌, Bytes, add64}
use toy_quant_v.Common.Types.{Side}
use toy_quant_v.Common.Float.{Float, to_price}
use toy_quant_v.Common.Batch.{DepthLevel}
use toy_quant_v.Orderbook.Ladder.Walk.{TopLevels, top_levels, nth}
use toy_quant_v.Orderbook.Book.{L2OrderBook}

pub record TopOfBook (F : Type 0) : Type 0 where
  pub bid_price : F
  pub bid_size : ℕ
  pub ask_price : F
  pub ask_size : ℕ

pub record L2MarketView (F : Type 0) : Type 0 where
  pub symbol : Bytes
  pub ts : ℕ
  pub local_ts : ℕ
  pub top : TopOfBook F
  pub micro_price : F
  pub depth_imbalance : F
  pub bid_depth : ℕ
  pub ask_depth : ℕ

-- The two touches, where both are there and the bid is below the ask.
unfoldable pub touches : TopLevels → TopLevels → Option (ℕ × ℕ)
touches bid ask = elim bid.tick [
  | none ↦ none
  | some b ↦ elim ask.tick [ none ↦ none | some a ↦ if leb a b then none else some (b, a) ]
]

module _ {F : Type 0} ⦃fl : Float F⦄ where
  unfoldable pub price_from_tick : L2OrderBook F → ℕ → F
  price_from_tick b tick =
      let price = to_price (pos tick) b.tick_size in
      if fl.f_lt fl.f_zero b.price_scale
      then fl.f_div (fl.f_round (fl.f_mul price b.price_scale)) b.price_scale
      else price

  abbrev pub no_top : TopOfBook F
  no_top = record { bid_price = fl.f_zero; bid_size = 0; ask_price = fl.f_zero; ask_size = 0 }

  abbrev pub top_at : L2OrderBook F → TopLevels → TopLevels → ℕ × ℕ → TopOfBook F
  top_at b bid ask t = record {
    bid_price = price_from_tick b t.0;
    bid_size = bid.quantity;
    ask_price = price_from_tick b t.1;
    ask_size = ask.quantity;
  }

  unfoldable pub top_of_book : L2OrderBook F → TopOfBook F
  top_of_book b =
      let bid = top_levels 1 b.bids in
      let ask = top_levels 1 b.asks in
      elim (touches bid ask) [ none ↦ no_top | some t ↦ top_at b bid ask t ]

  -- The imbalance of the two depths, and the price between the touches that their sizes weigh.
  unfoldable pub imbalance : ℕ → ℕ → F
  imbalance bid_depth ask_depth =
      let sum = add64 bid_depth ask_depth in
      if ltb 0 sum
      then fl.f_sub (fl.f_mul (fl.f_div (fl.of_u64 bid_depth) (fl.of_u64 sum)) fl.f_two) fl.f_one
      else fl.f_zero

  unfoldable pub weighted_price : TopOfBook F → F
  weighted_price t =
      let sum = add64 t.bid_size t.ask_size in
      if ltb 0 sum
      then fl.f_div
          (fl.f_add (fl.f_mul t.ask_price (fl.of_u64 t.bid_size))
            (fl.f_mul t.bid_price (fl.of_u64 t.ask_size)))
          (fl.of_u64 sum)
      else fl.f_zero

  unfoldable pub market_view : ℕ → L2OrderBook F → L2MarketView F
  market_view levels b =
      let bid = top_levels levels b.bids in
      let ask = top_levels levels b.asks in
      let view : L2MarketView F = record {
        symbol = b.symbol;
        ts = b.timestamp;
        local_ts = b.local_timestamp;
        top = no_top;
        micro_price = fl.f_zero;
        depth_imbalance = fl.f_zero;
        bid_depth = 0;
        ask_depth = 0;
      } in
      elim (touches bid ask) [
        | none ↦ view
        | some t ↦ record view {
          top = top_at b bid ask t;
          micro_price = weighted_price (top_at b bid ask t);
          depth_imbalance = imbalance bid.depth ask.depth;
          bid_depth = bid.depth;
          ask_depth = ask.depth;
        }
      ]

  -- A level out of range, or of no side, is the default one.
  unfoldable pub level : Side → ℕ → L2OrderBook F → DepthLevel F
  level side index b =
      let found : Option (ℕ × ℕ) = elim side [
        | Side.unknown ↦ none
        | Side.buy ↦ nth index b.bids
        | Side.sell ↦ nth index b.asks
      ] in
      elim found [
        | none ↦ record { price = fl.f_zero; quantity = 0 }
        | some t ↦ record { price = price_from_tick b t.0; quantity = t.1 }
      ]

module _ {F : Type 0} where
  unfoldable pub depth : Side → L2OrderBook F → ℕ
  depth side b = elim side [ Side.unknown ↦ 0 | Side.buy ↦ b.bids.count | Side.sell ↦ b.asks.count ]
