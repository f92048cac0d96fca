-- ===== src/App/Risk/Latch.antt =====
-- The kill switch of src/app/risk_pipeline.cpp as a latch.
use toy_quant_v.Base.{ℤ, add64, ◌∙◌, ℕ, ◌≡◌, refl, true, List, [], ◌∷◌, arith}
use toy_quant_v.Common.Float.{Float}
use toy_quant_v.App.Orders.{StrategyOrder}
use toy_quant_v.App.Risk.{
  RiskPipeline, RiskContext, Reason, refuse, check, check_kill_switch, begin_cycle,
  set_order_rate_limit, set_position_limit, set_hard_exposure_limit_usd, set_kill_switch_loss_usd,
  set_fat_finger_bps,
}

-- A call of the controls.
pub data Call (F : Type 0) : Type 0 where
  cycle : F → ℕ → Call F
  order : StrategyOrder F → RiskContext F → Call F
  position_limit : ℤ → Call F
  hard_exposure kill_switch_loss fat_finger : F → Call F
  rate : F → ℕ → Call F

module _ {F : Type 0} ⦃fl : Float F⦄ where
  abbrev pub call : RiskPipeline F → Call F → RiskPipeline F
  call r (cycle pnl ts) = begin_cycle pnl ts r
  call r (order o c) = (check o c r).0
  call r (position_limit x) = set_position_limit x r
  call r (hard_exposure x) = set_hard_exposure_limit_usd x r
  call r (kill_switch_loss x) = set_kill_switch_loss_usd x r
  call r (fat_finger x) = set_fat_finger_bps x r
  call r (rate x n) = set_order_rate_limit x n r

  abbrev pub calls : RiskPipeline F → List (Call F) → RiskPipeline F
  calls r [] = r
  calls r (c ∷ cs) = calls (call r c) cs

  check-tripped :
      (o : StrategyOrder F) (c : RiskContext F) (r : RiskPipeline F)
      → r.kill_switch_triggered ≡ true
      → check o c r ≡ check_kill_switch o c r
  unfolding check check_kill_switch
  check-tripped o c r h = ground arith

  call-tripped :
      (r : RiskPipeline F) (c : Call F)
      → r.kill_switch_triggered ≡ true
      → ((call r c).kill_switch_triggered ≡ true) × ((call r c).kill_switch_ts ≡ r.kill_switch_ts)
  unfolding begin_cycle check_kill_switch set_order_rate_limit set_position_limit
      set_hard_exposure_limit_usd set_kill_switch_loss_usd set_fat_finger_bps
  call-tripped r (cycle pnl ts) h = ground arith
  call-tripped r (order o c) h = ground (arith, check-tripped o c r h)
  call-tripped r (position_limit x) h = (h, refl)
  call-tripped r (hard_exposure x) h = (h, refl)
  call-tripped r (kill_switch_loss x) h = (h, refl)
  call-tripped r (fat_finger x) h = (h, refl)
  call-tripped r (rate x n) h = (h, refl)

  calls-tripped :
      (cs : List (Call F)) (r : RiskPipeline F)
      → r.kill_switch_triggered ≡ true
      → ((calls r cs).kill_switch_triggered ≡ true)
        × ((calls r cs).kill_switch_ts ≡ r.kill_switch_ts)
  calls-tripped [] r h = (h, refl)
  calls-tripped (c ∷ cs) r h =
      let (on, ts) = call-tripped r c h in
      let (on', ts') = calls-tripped cs (call r c) on in (on', ts' ∙ ts)

  -- The kill switch is a latch: once tripped, no later cycle, order or change of the limits releases it
  -- or moves its time, and every order is refused for it, with no token taken and no other counter moved.
  pub check-latched :
      (r : RiskPipeline F) (cs : List (Call F)) (o : StrategyOrder F) (c : RiskContext F)
      → r.kill_switch_triggered ≡ true
      → let s = calls r cs in
        (s.kill_switch_ts ≡ r.kill_switch_ts)
        × (check o c s ≡ (
          record s { kill_switch_rejected_orders = add64 s.kill_switch_rejected_orders 1 },
          refuse Reason.kill_switch,
        ))
  unfolding check_kill_switch
  check-latched r cs o c h =
      let (on, ts) = calls-tripped cs r h in (ts, check-tripped o c (calls r cs) on ∙ ground arith)
