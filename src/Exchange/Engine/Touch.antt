-- ===== src/Exchange/Engine/Touch.antt =====
-- The external touch: `external_touch`, `capped_external_quantity`, `external_available`,
-- `internal_available` and `match_external_bbo` of src/exchange/matching_engine.cpp.
use toy_quant_v.Base.{
  ℕ, ℤ, min, Bool, true, false, ◌&&◌, List, [], ◌∷◌, Option, none, some, ltb, leb, not, ◌==◌,
  if◌then◌else◌, add64, sub64,
}
use toy_quant_v.Base.Maps.{lookup, insert}
use toy_quant_v.Common.Types.{BboQuote}
use toy_quant_v.Common.Float.{Float, to_price_tick}
use toy_quant_v.Exchange.Order.{Order, OrderSide, OrderType, LiquidityRole, CancelReason}
use toy_quant_v.Exchange.Book.{Levels, MeOrderBook, levels_of}
use toy_quant_v.Exchange.Sweep.{
  is_self_trade, state_report, trade_report, filled_or_partial, out_of_reach,
}
use toy_quant_v.Exchange.Engine.{Engine, put_report}
use toy_quant_v.Exchange.Engine.Match.{opposite}

abbrev pub limit? : OrderType → Bool
limit? OrderType.limit = true
limit? OrderType.market = false

-- `add_level`: the sum so far and whether the walk goes on.
module _ {F : Type 0} where
  unfoldable pub add_level : Order F → List (Order F) → ℕ → ℕ × Bool
  add_level o [] available = (available, true)
  add_level o (resting ∷ os) available =
      let sum = add64 available resting.remaining in
      let rest = add_level o os sum in
      if is_self_trade resting o
      then (available, false)
      else if leb o.remaining sum
      then (sum, false)
      else rest

  unfoldable pub add_levels : Order F → ℤ → Levels F → ℕ → ℕ
  add_levels o limit [] available = available
  add_levels o limit ((tick, level) ∷ ls) available =
      let (sum, more) = add_level o level.orders available in
      let rest = add_levels o limit ls sum in
      if out_of_reach o.side limit tick then available else if more then rest else sum

  abbrev pub touch_price : OrderSide → BboQuote F → F
  touch_price OrderSide.buy q = q.ask_price
  touch_price OrderSide.sell q = q.bid_price

  abbrev pub touch_quantity : OrderSide → BboQuote F → ℕ
  touch_quantity OrderSide.buy q = q.ask_quantity
  touch_quantity OrderSide.sell q = q.bid_quantity

  abbrev pub with_touch_quantity : OrderSide → ℕ → BboQuote F → BboQuote F
  with_touch_quantity OrderSide.buy n q = record q { ask_quantity = n }
  with_touch_quantity OrderSide.sell n q = record q { bid_quantity = n }

module _ {F R : Type 0} ⦃fl : Float F⦄ where
  -- The quote that the order crosses, with the price and the size of the touch.
  unfoldable pub external_touch : Engine F R → Order F → ℕ → Option (BboQuote F × F × ℕ)
  external_touch e o id = elim (lookup id e.external_bbo) [
    | none ↦ none
    | some quote ↦
        if limit? o.order_type
          && ltb 0 (touch_quantity o.side quote)
          && not (
              out_of_reach o.side (to_price_tick o.price e.tick_size)
                (to_price_tick (touch_price o.side quote) e.tick_size))
        then some (quote, touch_price o.side quote, touch_quantity o.side quote)
        else none
  ]

  unfoldable pub capped_external_quantity : Engine F R → ℕ → ℕ
  capped_external_quantity e displayed =
      if fl.f_le fl.f_one e.participation_limit
      then displayed
      else fl.to_u64 (fl.f_mul (fl.of_u64 displayed) e.participation_limit)

  unfoldable pub external_available : Engine F R → Order F → ℕ → ℕ
  external_available e o id = elim (external_touch e o id) [
    | none ↦ 0
    | some (quote, price, displayed) ↦ capped_external_quantity e displayed
  ]

  unfoldable pub internal_available : Engine F R → MeOrderBook F → Order F → ℕ
  internal_available e book o =
      min (add_levels o (to_price_tick o.price e.tick_size) (levels_of (opposite o.side) book) 0)
        o.remaining

  -- The order with what is left of it.
  unfoldable pub match_external_bbo : ℕ → Order F → Engine F R → Order F × Engine F R
  match_external_bbo id o e = elim (external_touch e o id) [
    | none ↦ (o, e)
    | some (quote, price, displayed) ↦
        let traded = min o.remaining (capped_external_quantity e displayed) in
        let left = sub64 o.remaining traded in
        let o' = record o { remaining = left } in
        if traded == 0 then (o, e) else (
          o',
          put_report (state_report o' (filled_or_partial left) o.price left o.ts CancelReason.none)
              (put_report (trade_report e.fee_schedule o' price traded LiquidityRole.taker o.ts)
                (record e {
                  external_bbo =
                      insert id
                        (with_touch_quantity o.side (sub64 (touch_quantity o.side quote) traded)
                          quote)
                        e.external_bbo;
                })),
        )
  ]
