-- ===== src/App/Risk/Position.antt =====
-- What the controls of src/app/risk_pipeline.cpp let through, and how they count what they refuse.
use toy_quant_v.Base.{
  ℕ, ◌+◌, ◌≤◌, ◌<◌, ◌≡◌, ◌≢◌, ◌⊎◌, ℤ, pos, ltb_ℤ, abs_ℤ, pos_part, true, arith, if◌then◌else◌,
  add64, u64_mod, ◌∙◌, ap, subst,
}
use toy_quant_v.Common.Float.{Float}
use toy_quant_v.App.Orders.{StrategyOrder}
use toy_quant_v.App.Risk.{
  RiskPipeline, RiskContext, RiskLimits, Decision, check, check_kill_switch, check_fat_finger,
  check_rate_limit, check_exposure, check_position, projected_position, current_position,
  is_reducing, within_limit, refill,
}

within_limit-abs :
    (limit p : ℤ)
    → ltb_ℤ (pos 0) limit ≡ true
    → within_limit limit p ≡ true
    → abs_ℤ p ≤ pos_part limit
unfolding within_limit
within_limit-abs limit p h k = ground arith

module _ {F : Type 0} ⦃fl : Float F⦄ where
  limits-check_kill_switch :
      (o : StrategyOrder F) (c : RiskContext F) (r : RiskPipeline F)
      → (check_kill_switch o c r).0.limits ≡ r.limits
  unfolding check_kill_switch
  limits-check_kill_switch o c r = ground arith

  limits-check_fat_finger :
      (o : StrategyOrder F) (c : RiskContext F) (r : RiskPipeline F)
      → (check_fat_finger o c r).0.limits ≡ r.limits
  unfolding check_fat_finger
  limits-check_fat_finger o c r = ground arith

  limits-check_rate_limit :
      (o : StrategyOrder F) (c : RiskContext F) (r : RiskPipeline F)
      → (check_rate_limit o c r).0.limits ≡ r.limits
  unfolding check_rate_limit refill
  limits-check_rate_limit o c r = ground arith

  limits-check_exposure :
      (o : StrategyOrder F) (c : RiskContext F) (r : RiskPipeline F)
      → (check_exposure o c r).0.limits ≡ r.limits
  unfolding check_exposure
  limits-check_exposure o c r = ground arith

  check_position-bound :
      (o : StrategyOrder F) (c : RiskContext F) (r : RiskPipeline F)
      → (check_position o c r).1.allowed ≡ true
      → ltb_ℤ (pos 0) r.limits.position_limit ≡ true
      → o.quantity ≢ 0
      → (abs_ℤ (projected_position o c) ≤ pos_part r.limits.position_limit)
        ⊎ (abs_ℤ (projected_position o c) < abs_ℤ (current_position c))
  unfolding check_position is_reducing
  check_position-bound o c r h on q =
      ground (arith, within_limit-abs r.limits.position_limit (projected_position o c))

  check-reaches :
      (o : StrategyOrder F) (c : RiskContext F) (r : RiskPipeline F)
      → (check o c r).1.allowed ≡ true
      → (s : RiskPipeline F) × (s.limits ≡ r.limits) × ((check_position o c s).1.allowed ≡ true)
  unfolding check
  check-reaches o c r h =
      let r1 = (check_kill_switch o c r).0 in
      let r2 = (check_fat_finger o c r1).0 in
      let r3 = (check_rate_limit o c r2).0 in
      let r4 = (check_exposure o c r3).0 in
      (
        r4,
        limits-check_exposure o c r3
            ∙ limits-check_rate_limit o c r2
            ∙ limits-check_fat_finger o c r1
            ∙ limits-check_kill_switch o c r,
        ground arith,
      )

  -- With a position limit set, an order of some quantity that all controls allow either leaves the
  -- projected position, its pending quantities included, within the limit on both sides, or brings it
  -- closer to zero than it is. It is so whatever the other limits and the state of the controls.
  pub check-bound :
      (o : StrategyOrder F) (c : RiskContext F) (r : RiskPipeline F)
      → (check o c r).1.allowed ≡ true
      → ltb_ℤ (pos 0) r.limits.position_limit ≡ true
      → o.quantity ≢ 0
      → (abs_ℤ (projected_position o c) ≤ pos_part r.limits.position_limit)
        ⊎ (abs_ℤ (projected_position o c) < abs_ℤ (current_position c))
  check-bound o c r h on q =
      let (s, same, passed) = check-reaches o c r h in
      subst
        (λ (l : RiskLimits F).
          (abs_ℤ (projected_position o c) ≤ pos_part l.position_limit)
          ⊎ (abs_ℤ (projected_position o c) < abs_ℤ (current_position c)))
        same
        (check_position-bound o c s passed
          (ap (λ (l : RiskLimits F). ltb_ℤ (pos 0) l.position_limit) same ∙ on) q)

-- All that the five counters count.
unfoldable pub refusals : {F : Type 0} → RiskPipeline F → ℕ
refusals r =
    r.kill_switch_rejected_orders + r.fat_finger_rejections + r.rate_limited_orders
    + r.hard_limit_rejections + r.risk_rejected_orders

-- A check counts an order that it refuses once, and nothing else.
abbrev pub Counts : {F : Type 0} → RiskPipeline F → RiskPipeline F × Decision → Type 0
Counts r (r', d) = refusals r' ≡ refusals r + (if d.allowed then 0 else 1)

module _ {F : Type 0} ⦃fl : Float F⦄ where
  check_kill_switch-Counts :
      (o : StrategyOrder F) (c : RiskContext F) (r : RiskPipeline F)
      → refusals r + 1 < u64_mod
      → Counts r (check_kill_switch o c r)
  unfolding check_kill_switch refusals add64
  check_kill_switch-Counts o c r h = ground arith

  check_fat_finger-Counts :
      (o : StrategyOrder F) (c : RiskContext F) (r : RiskPipeline F)
      → refusals r + 1 < u64_mod
      → Counts r (check_fat_finger o c r)
  unfolding check_fat_finger refusals add64
  check_fat_finger-Counts o c r h = ground arith

  check_rate_limit-Counts :
      (o : StrategyOrder F) (c : RiskContext F) (r : RiskPipeline F)
      → refusals r + 1 < u64_mod
      → Counts r (check_rate_limit o c r)
  unfolding check_rate_limit refill refusals add64
  check_rate_limit-Counts o c r h = ground arith

  check_exposure-Counts :
      (o : StrategyOrder F) (c : RiskContext F) (r : RiskPipeline F)
      → refusals r + 1 < u64_mod
      → Counts r (check_exposure o c r)
  unfolding check_exposure refusals add64
  check_exposure-Counts o c r h = ground arith

  check_position-Counts :
      (o : StrategyOrder F) (c : RiskContext F) (r : RiskPipeline F)
      → refusals r + 1 < u64_mod
      → Counts r (check_position o c r)
  unfolding check_position refusals add64
  check_position-Counts o c r h = ground arith

  -- The five counters together grow by one exactly where an order is refused, and stay as they are where
  -- it is allowed, as long as they are below 2^64 - 1.
  pub check-Counts :
      (o : StrategyOrder F) (c : RiskContext F) (r : RiskPipeline F)
      → refusals r + 1 < u64_mod
      → Counts r (check o c r)
  unfolding check
  check-Counts o c r h =
      let r1 = (check_kill_switch o c r).0 in
      let r2 = (check_fat_finger o c r1).0 in
      let r3 = (check_rate_limit o c r2).0 in
      let r4 = (check_exposure o c r3).0 in
      ground (
        arith,
        check_kill_switch-Counts o c r h,
        check_fat_finger-Counts o c r1,
        check_rate_limit-Counts o c r2,
        check_exposure-Counts o c r3,
        check_position-Counts o c r4,
      )
