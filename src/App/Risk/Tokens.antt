-- ===== src/App/Risk/Tokens.antt =====
-- The rate token of an order that a later control of src/app/risk_pipeline.cpp refuses.
use toy_quant_v.Base.{pos, ltb_ℤ, ◌≡◌, ◌≢◌, true, false, arith}
use toy_quant_v.Common.Float.{Float, f_max}
use toy_quant_v.App.Orders.{StrategyOrder}
use toy_quant_v.App.Risk.{
  RiskPipeline, RiskContext, Reason, refuse, check, check_kill_switch, check_fat_finger,
  check_rate_limit, check_exposure, check_position, refill, off?, is_reducing, within_limit,
  projected_position,
}

module _ {F : Type 0} ⦃fl : Float F⦄ where
  limits-refill : (now : F) (r : RiskPipeline F) → (refill now r).limits ≡ r.limits
  unfolding refill
  limits-refill now r = ground arith

  -- With the rate and the position limit on and the other controls off, an order that finds a token but
  -- would leave the position outside its limit is refused for the position, and yet its token is gone:
  -- the bucket after it holds one token less, as if it had been sent.
  pub refused-token_taken :
      (o : StrategyOrder F) (c : RiskContext F) (r : RiskPipeline F)
      → r.kill_switch_triggered ≡ false
      → off? r.limits.fat_finger_bps ≡ true
      → off? r.limits.max_exposure_usd ≡ true
      → off? r.limits.max_orders_per_second ≡ false
      → ltb_ℤ (pos 0) r.limits.position_limit ≡ true
      → o.quantity ≢ 0
      → is_reducing o c ≡ false
      → within_limit r.limits.position_limit (projected_position o c) ≡ false
      → fl.f_le fl.f_one (fl.f_add (refill c.now_seconds r).tokens (fl.decimal 1 12)) ≡ true
      → ((check o c r).1 ≡ refuse Reason.position)
        × ((check o c r).0.tokens
            ≡ f_max fl.f_zero (fl.f_sub (refill c.now_seconds r).tokens fl.f_one))
  unfolding check check_kill_switch check_fat_finger check_rate_limit check_exposure check_position
  refused-token_taken o c r k f e m p q n w t = ground (arith, limits-refill c.now_seconds r)
