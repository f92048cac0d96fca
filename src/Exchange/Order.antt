-- ===== src/Exchange/Order.antt =====
-- src/exchange/order.h and src/exchange/execution_report.h.
use toy_quant_v.Base.{ℕ, Bytes, Bool, true, false, if◌then◌else◌}
use toy_quant_v.Common.Types.{TimeInForce, ExecType}

pub data OrderSide : Type 0 where
  buy sell : OrderSide

pub data OrderType : Type 0 where
  limit market : OrderType

pub record Order (F : Type 0) : Type 0 where
  pub id : ℕ
  pub symbol : Bytes
  pub side : OrderSide
  pub order_type : OrderType
  pub price : F
  pub qty : ℕ
  pub remaining : ℕ
  pub ts : ℕ
  pub owner : Bytes
  pub time_in_force : TimeInForce

pub data LiquidityRole : Type 0 where
  unknown maker taker : LiquidityRole

pub data RejectReason : Type 0 where
  none venue broker timeout risk : RejectReason

pub data CancelReason : Type 0 where
  none user venue ioc fok self_trade timeout : CancelReason

pub record ExecutionReport (F : Type 0) : Type 0 where
  pub order_id : ℕ
  pub side : OrderSide
  pub exec_type : ExecType
  pub symbol : Bytes
  pub price : F
  pub quantity : ℕ
  pub ts : ℕ
  pub owner : Bytes
  pub liquidity_role : LiquidityRole
  pub fee : F
  pub reject_reason : RejectReason
  pub cancel_reason : CancelReason

unfoldable pub is_terminal : ExecType → Bool
is_terminal ExecType.filled = true
is_terminal ExecType.cancelled = true
is_terminal ExecType.rejected = true
is_terminal ExecType.trade = false
is_terminal ExecType.partial_fill = false
is_terminal ExecType.resting = false

abbrev pub trade? : ExecType → Bool
trade? ExecType.trade = true
trade? ExecType.partial_fill = false
trade? ExecType.filled = false
trade? ExecType.cancelled = false
trade? ExecType.resting = false
trade? ExecType.rejected = false

unfoldable pub executed_quantity : {F : Type 0} → ExecutionReport F → ℕ
executed_quantity r = if trade? r.exec_type then r.quantity else 0

unfoldable pub remaining_quantity : {F : Type 0} → ExecutionReport F → ℕ
remaining_quantity r = if trade? r.exec_type then 0 else r.quantity
