-- ===== src/Exchange/Engine/SelfTrade.antt =====
-- What `match_side` reports of an order that self-trade prevention stops.
use toy_quant_v.Base.{ℕ, ℤ, ◌<◌, ◌≡◌, Bool, true, false, List, ◌∷◌, arith, bytes_eq}
use toy_quant_v.Common.Types.{ExecType}
use toy_quant_v.Common.Float.{Float, to_price_tick}
use toy_quant_v.Exchange.Order.{Order, CancelReason}
use toy_quant_v.Exchange.Book.{PriceLevel, Levels, MeOrderBook, levels_of}
use toy_quant_v.Common.Fees.{FeeSchedule}
use toy_quant_v.Exchange.Sweep.{
  Sweep, match_levels, fill_orders, consume_queue, prevent_self_trade, is_self_trade, out_of_reach,
  state_report, market_owner,
}
use toy_quant_v.Exchange.Engine.{Engine, put_report}
use toy_quant_v.Exchange.Engine.Match.{opposite, match_side, start_sweep}
use toy_quant_v.Exchange.Engine.Fok.{reports-end_sweep}

module _ {F : Type 0} ⦃fl : Float F⦄ (fs : FeeSchedule F) (tick_size : F) where
  match_levels-own :
      (o own : Order F) (tick best : ℤ) (level : PriceLevel F) (os : List (Order F)) (ls : Levels F)
      (s : Sweep F)
      → level.orders ≡ own ∷ os
      → is_self_trade own o ≡ true
      → out_of_reach o.side tick best ≡ false
      → bytes_eq o.owner market_owner ≡ false
      → 0 < s.qty
      → (match_levels fs tick_size o tick ((best, level) ∷ ls) s).1 ≡ prevent_self_trade o s
  unfolding match_levels fill_orders consume_queue
  match_levels-own o own tick best level os ls s head same reach venue some' = ground arith

module _ {F R : Type 0} ⦃fl : Float F⦄ where
  -- An order that meets the own order at the head of the best level within its limit trades nothing,
  -- and yet `match_side` reports it twice as ended: as cancelled for self-trade with its whole
  -- quantity, and then as filled.
  pub self_trade-reported_filled :
      (id : ℕ) (book : MeOrderBook F) (o own : Order F) (rest : Bool) (e : Engine F R) (best : ℤ)
      (level : PriceLevel F) (os : List (Order F)) (ls : Levels F)
      → levels_of (opposite o.side) book ≡ (best, level) ∷ ls
      → level.orders ≡ own ∷ os
      → is_self_trade own o ≡ true
      → out_of_reach o.side (to_price_tick o.price e.tick_size) best ≡ false
      → bytes_eq o.owner market_owner ≡ false
      → 0 < o.remaining
      → (match_side id book o rest e).1.reports
        ≡ state_report o ExecType.filled o.price 0 o.ts CancelReason.none
          ∷ state_report o ExecType.cancelled o.price o.remaining o.ts CancelReason.self_trade
          ∷ e.reports
  unfolding match_side prevent_self_trade start_sweep put_report
  self_trade-reported_filled id book o own rest e best level os ls here head own' reach venue
        some' =
      let tick = to_price_tick o.price e.tick_size in
      let s = start_sweep e o in
      ground (
        arith,
        match_levels-own e.fee_schedule e.tick_size o own tick best level os ls s,
        reports-end_sweep o.side
            (match_levels e.fee_schedule e.tick_size o tick (levels_of (opposite o.side) book) s).1
            e,
      )
