-- ===== src/App/Orders.antt =====
-- `StrategyOrder` (src/strategy/strategy.h), what a strategy asks for.
use toy_quant_v.Base.{ℕ, Bytes}
use toy_quant_v.Common.Types.{Side, TimeInForce}

pub record StrategyOrder (F : Type 0) : Type 0 where
  pub side : Side
  pub symbol : Bytes
  pub price : F
  pub quantity : ℕ
  pub order_id : ℕ
  pub time_in_force : TimeInForce
