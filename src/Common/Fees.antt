-- ===== src/Common/Fees.antt =====
-- The fee arithmetic of src/common/instrument_spec.h and the schedule of src/exchange/matching_engine.h.
use toy_quant_v.Base.{ℕ, Bool, ltb, if◌then◌else◌}
use toy_quant_v.Common.Float.{Float}

pub record FeeSchedule (F : Type 0) : Type 0 where
  pub maker_rate : F
  pub taker_rate : F
  pub quantity_scale : ℕ
  pub unit_notional_usd : F
  pub multiplier : F
  pub fee_per_share : F
  pub min_commission_per_order : F
  pub regulatory_fee_rate : F
  pub clearing_fee_per_share : F
  pub audit_fee_per_share : F
  pub maker_rebate_per_share : F

module _ {F : Type 0} ⦃fl : Float F⦄ where
  open fl use {f_zero, f_add, f_sub, f_mul, f_div, f_lt, of_u64}

  unfoldable pub unit_notional_at : F → F → F → F
  unit_notional_at unit_notional_usd multiplier price =
      if f_lt f_zero unit_notional_usd then unit_notional_usd else f_mul price multiplier

  -- The `units` that three of the functions below compute alike.
  unfoldable pub units_of : ℕ → ℕ → F
  units_of quantity quantity_scale =
      if ltb 0 quantity_scale
      then f_div (of_u64 quantity) (of_u64 quantity_scale)
      else of_u64 quantity

  unfoldable pub fill_notional_usd : F → F → F → ℕ → ℕ → F
  fill_notional_usd unit_notional_usd multiplier price quantity quantity_scale =
      f_mul (unit_notional_at unit_notional_usd multiplier price) (units_of quantity quantity_scale)

  unfoldable pub fee_on_fill : F → F → F → F → F → ℕ → ℕ → F
  fee_on_fill rate unit_notional_usd multiplier fee_per_share price quantity quantity_scale =
      f_add
        (f_mul (fill_notional_usd unit_notional_usd multiplier price quantity quantity_scale) rate)
        (f_mul (units_of quantity quantity_scale) fee_per_share)

  unfoldable pub schedule_fee_on_fill : FeeSchedule F → F → ℕ → Bool → Bool → F
  schedule_fee_on_fill s price quantity is_sell added_liquidity =
      let units = units_of quantity s.quantity_scale in
      let executed = f_mul units (f_add s.clearing_fee_per_share s.audit_fee_per_share) in
      let proceeds =
        fill_notional_usd s.unit_notional_usd s.multiplier price quantity s.quantity_scale in
      let with_sale =
        if is_sell then f_add executed (f_mul proceeds s.regulatory_fee_rate) else executed in
      if added_liquidity then f_sub with_sale (f_mul units s.maker_rebate_per_share) else with_sale

  unfoldable pub min_commission_shortfall : F → F → F
  min_commission_shortfall floor' charged =
      if fl.f_lt charged floor' then fl.f_sub floor' charged else fl.f_zero

  unfoldable pub position_value : F → F → F → F → F → F
  position_value unit_notional multiplier quantity entry_price price =
      if fl.f_le entry_price fl.f_zero
      then fl.f_zero
      else fl.f_mul (fl.f_mul (unit_notional_at unit_notional multiplier entry_price) quantity)
          (fl.f_div price entry_price)
