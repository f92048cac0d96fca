-- ===== src/App/Risk.antt =====
-- `RiskPipeline` (src/app/risk_pipeline.h, risk_pipeline.cpp). Positions are far inside 64 bits, so the
-- sums of int64_t do not overflow; the casts of a quantity are written out.
pub mod Latch
pub mod Position
pub mod Tokens
use toy_quant_v.Base.{
  ℕ, ◌+◌, ℤ, pos, ◌+ℤ◌, ◌-ℤ◌, ltb_ℤ, abs_ℤ, neg_ℤ, to_i64, Bool, true, false, not, ◌&&◌, ◌||◌,
  Option, none, some, ltb, ◌==◌, max, if◌then◌else◌, add64,
}
use toy_quant_v.Common.Types.{Side, BboQuote}
use toy_quant_v.Common.Float.{Float, f_max, f_min}
use toy_quant_v.Common.Fees.{unit_notional_at}
use toy_quant_v.App.Orders.{StrategyOrder}

pub record RiskLimits (F : Type 0) : Type 0 where
  pub position_limit : ℤ
  pub max_exposure_usd : F
  pub kill_switch_loss_usd : F
  pub fat_finger_bps : F
  pub max_orders_per_second : F
  pub order_burst : ℕ

-- A null `quote` is `none`.
pub record RiskContext (F : Type 0) : Type 0 where
  pub position : ℤ
  pub pending_buy_quantity : ℤ
  pub pending_sell_quantity : ℤ
  pub quantity_scale : ℕ
  pub unit_notional_usd : F
  pub multiplier : F
  pub quote : Option (BboQuote F)
  pub now_seconds : F

pub data Reason : Type 0 where
  no_reason kill_switch fat_finger rate_limit exposure position : Reason

pub record Decision : Type 0 where
  pub allowed : Bool
  pub reason : Reason

abbrev pub allow : Decision
allow = record { allowed = true; reason = Reason.no_reason }

abbrev pub refuse : Reason → Decision
refuse r = record { allowed = false; reason = r }

pub record RiskPipeline (F : Type 0) : Type 0 where
  pub limits : RiskLimits F
  pub kill_switch_triggered : Bool
  pub kill_switch_ts : ℕ
  pub kill_switch_rejected_orders : ℕ
  pub hard_limit_rejections : ℕ
  pub risk_rejected_orders : ℕ
  pub fat_finger_rejections : ℕ
  pub rate_limited_orders : ℕ
  pub tokens : F
  pub last_token_time : F
  pub bucket_initialized : Bool

module _ {F : Type 0} where
  abbrev pub current_position : RiskContext F → ℤ
  current_position c = (c.position +ℤ c.pending_buy_quantity) -ℤ c.pending_sell_quantity

  abbrev pub signed_quantity : StrategyOrder F → ℤ
  signed_quantity o = elim o.side [
    | Side.buy ↦ to_i64 o.quantity
    | Side.sell ↦ neg_ℤ (to_i64 o.quantity)
    | Side.unknown ↦ neg_ℤ (to_i64 o.quantity)
  ]

  unfoldable pub projected_position : StrategyOrder F → RiskContext F → ℤ
  projected_position o c = current_position c +ℤ signed_quantity o

  unfoldable pub is_reducing : StrategyOrder F → RiskContext F → Bool
  is_reducing o c = ltb (abs_ℤ (projected_position o c)) (abs_ℤ (current_position c))

  unfoldable pub set_position_limit : ℤ → RiskPipeline F → RiskPipeline F
  set_position_limit x r = record r { limits = record r.limits { position_limit = x } }

  unfoldable pub set_hard_exposure_limit_usd : F → RiskPipeline F → RiskPipeline F
  set_hard_exposure_limit_usd x r = record r { limits = record r.limits { max_exposure_usd = x } }

  unfoldable pub set_kill_switch_loss_usd : F → RiskPipeline F → RiskPipeline F
  set_kill_switch_loss_usd x r = record r { limits = record r.limits { kill_switch_loss_usd = x } }

  unfoldable pub set_fat_finger_bps : F → RiskPipeline F → RiskPipeline F
  set_fat_finger_bps x r = record r { limits = record r.limits { fat_finger_bps = x } }

  unfoldable pub check_kill_switch :
      StrategyOrder F → RiskContext F → RiskPipeline F → RiskPipeline F × Decision
  check_kill_switch o c r = if not r.kill_switch_triggered then (r, allow) else (
    record r { kill_switch_rejected_orders = add64 r.kill_switch_rejected_orders 1 },
    refuse Reason.kill_switch,
  )

module _ {F : Type 0} ⦃fl : Float F⦄ where
  unfoldable pub new_risk : RiskLimits F → RiskPipeline F
  new_risk limits = record {
    limits = limits;
    kill_switch_triggered = false;
    kill_switch_ts = 0;
    kill_switch_rejected_orders = 0;
    hard_limit_rejections = 0;
    risk_rejected_orders = 0;
    fat_finger_rejections = 0;
    rate_limited_orders = 0;
    tokens = fl.f_zero;
    last_token_time = fl.f_zero;
    bucket_initialized = false;
  }

  abbrev pub off? : F → Bool
  off? x = fl.f_le x fl.f_zero

  unfoldable pub set_order_rate_limit : F → ℕ → RiskPipeline F → RiskPipeline F
  set_order_rate_limit rate burst r = record r {
    limits = record r.limits {
      max_orders_per_second = rate;
      order_burst = if burst == 0 then 1 else burst;
    };
    bucket_initialized = false;
  }

  unfoldable pub begin_cycle : F → ℕ → RiskPipeline F → RiskPipeline F
  begin_cycle net_pnl ts r =
      if off? r.limits.kill_switch_loss_usd || r.kill_switch_triggered
      then r
      else if fl.f_le net_pnl (fl.f_neg r.limits.kill_switch_loss_usd)
      then record r { kill_switch_triggered = true; kill_switch_ts = ts }
      else r

  abbrev pub mid_of : BboQuote F → F
  mid_of q = fl.f_div (fl.f_add q.bid_price q.ask_price) fl.f_two

  -- The price is outside the band around the midpoint.
  unfoldable pub out_of_band : F → F → BboQuote F → Bool
  out_of_band bps price q =
      let mid = mid_of q in
      let off = fl.f_mul (fl.f_div (fl.f_abs (fl.f_sub price mid)) mid) fl.f_bps in
      not (off? q.bid_price) && not (off? q.ask_price) && not (off? mid) && not (fl.f_le off bps)

  unfoldable pub check_fat_finger :
      StrategyOrder F → RiskContext F → RiskPipeline F → RiskPipeline F × Decision
  check_fat_finger o c r =
      let far : Bool = elim c.quote [
        | none ↦ false
        | some q ↦ out_of_band r.limits.fat_finger_bps o.price q
      ] in
      if off? r.limits.fat_finger_bps || o.quantity == 0 || off? o.price || not far
      then (r, allow)
      else (
        record r { fat_finger_rejections = add64 r.fat_finger_rejections 1 },
        refuse Reason.fat_finger,
      )

  -- The bucket brought up to the clock: full at first, and no later fuller than full.
  unfoldable pub refill : F → RiskPipeline F → RiskPipeline F
  refill now r =
      let burst = f_max fl.f_one (fl.of_u64 r.limits.order_burst) in
      let earned = fl.f_mul (fl.f_sub now r.last_token_time) r.limits.max_orders_per_second in
      if not r.bucket_initialized
      then record r { tokens = burst; last_token_time = now; bucket_initialized = true }
      else if fl.f_lt r.last_token_time now
      then record r { tokens = f_min burst (fl.f_add r.tokens earned); last_token_time = now }
      else r

  unfoldable pub check_rate_limit :
      StrategyOrder F → RiskContext F → RiskPipeline F → RiskPipeline F × Decision
  check_rate_limit o c r =
      let full = refill c.now_seconds r in
      let taken = record full { tokens = f_max fl.f_zero (fl.f_sub full.tokens fl.f_one) } in
      let limited = record full { rate_limited_orders = add64 full.rate_limited_orders 1 } in
      if off? r.limits.max_orders_per_second || o.quantity == 0 || is_reducing o c
      then (r, allow)
      else if fl.f_le fl.f_one (fl.f_add full.tokens (fl.decimal 1 12))
      then (taken, allow)
      else (limited, refuse Reason.rate_limit)

  -- The marked value of the position that the order would leave.
  unfoldable pub marked_exposure : StrategyOrder F → RiskContext F → F
  marked_exposure o c =
      fl.f_mul
        (fl.f_div (fl.f_abs (fl.of_i64 (projected_position o c)))
          (fl.of_u64 (max 1 c.quantity_scale)))
        (unit_notional_at c.unit_notional_usd c.multiplier o.price)

  unfoldable pub check_exposure :
      StrategyOrder F → RiskContext F → RiskPipeline F → RiskPipeline F × Decision
  check_exposure o c r =
      if off? r.limits.max_exposure_usd
        || o.quantity == 0
        || is_reducing o c
        || fl.f_le (marked_exposure o c) r.limits.max_exposure_usd
      then (r, allow)
      else (
        record r { hard_limit_rejections = add64 r.hard_limit_rejections 1 },
        refuse Reason.exposure,
      )

-- `projected <= position_limit && projected >= -position_limit`
unfoldable pub within_limit : ℤ → ℤ → Bool
within_limit limit projected = not (ltb_ℤ limit projected) && not (ltb_ℤ projected (neg_ℤ limit))

module _ {F : Type 0} where
  unfoldable pub check_position :
      StrategyOrder F → RiskContext F → RiskPipeline F → RiskPipeline F × Decision
  check_position o c r =
      let limit = r.limits.position_limit in
      if not (ltb_ℤ (pos 0) limit)
        || o.quantity == 0
        || is_reducing o c
        || within_limit limit (projected_position o c)
      then (r, allow)
      else (
        record r { risk_rejected_orders = add64 r.risk_rejected_orders 1 },
        refuse Reason.position,
      )

module _ {F : Type 0} ⦃fl : Float F⦄ where
  -- One turn of the loop over `checks_`: the next check runs where this one allows the order.
  abbrev pub next_check :
      RiskPipeline F × Decision
      → (RiskPipeline F → RiskPipeline F × Decision)
      → RiskPipeline F × Decision
  next_check (r, d) rest = if d.allowed then rest r else (r, d)

  unfoldable pub check :
      StrategyOrder F → RiskContext F → RiskPipeline F → RiskPipeline F × Decision
  check o c r = next_check (check_kill_switch o c r) (λ r1.
      next_check (check_fat_finger o c r1) (λ r2. next_check (check_rate_limit o c r2) (λ r3.
        next_check (check_exposure o c r3)
          (λ r4. next_check (check_position o c r4) (λ r5. (r5, allow))))))
