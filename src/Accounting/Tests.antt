-- ===== src/Accounting/Tests.antt =====
-- The witnesses for src/accounting/portfolio.cpp.
use toy_quant_v.Base.{ℕ, ◌+◌, ◌%◌, ◌≡◌, ◌+ℤ◌, List, [], ◌∷◌, some, arith, bytes, u64_mod}
use toy_quant_v.Common.Types.{ExecType}
use toy_quant_v.Exchange.Samples.{whole}
use toy_quant_v.Exchange.Order.{
  ExecutionReport, OrderSide, LiquidityRole, RejectReason, CancelReason, executed_quantity,
}
use toy_quant_v.Accounting.Portfolio.{Portfolio, new_portfolio, position_in}
use toy_quant_v.Accounting.Portfolio.Value.{accrue_interval_flows}
use toy_quant_v.Accounting.Portfolio.Positions.{
  apply_all, net_quantity, total_quantity, apply_all-position_in,
}
use toy_quant_v.Accounting.Portfolio.Flows.{flows_of, credit_all, accrue_interval_flows-credit_all}

abbrev fill : OrderSide → ℕ → ExecutionReport ℕ
fill side n = record {
  order_id = 1;
  side = side;
  exec_type = ExecType.trade;
  symbol = bytes "EURUSD";
  price = 10;
  quantity = n;
  ts = 1;
  owner = bytes "MarketMaker";
  liquidity_role = LiquidityRole.maker;
  fee = 1;
  reject_reason = RejectReason.none;
  cancel_reason = CancelReason.none;
}

-- A purchase, a sale that reverses the position, and a purchase that closes part of it.
abbrev reversal : List (ExecutionReport ℕ)
reversal = fill OrderSide.buy 5 ∷ fill OrderSide.sell 8 ∷ fill OrderSide.buy 2 ∷ []

abbrev account : Portfolio ℕ
account = new_portfolio 1 1000 0 1

apply_all-position_in_example :
    let x = position_in (bytes "EURUSD") account in
    let y = position_in (bytes "EURUSD") (apply_all reversal account) in
    (y.quantity ≡ x.quantity +ℤ net_quantity (bytes "EURUSD") reversal)
    × (y.traded_quantity % u64_mod
        ≡ (x.traded_quantity + total_quantity (bytes "EURUSD") reversal) % u64_mod)
unfolding executed_quantity
apply_all-position_in_example =
    apply_all-position_in reversal account (bytes "EURUSD")
      (omega arith, (omega arith, (omega arith, tt)))

accrue_interval_flows-credit_all_example :
    let p = apply_all reversal account in
    (accrue_interval_flows (λ s. some 2) (λ s. some 11) p).0
    ≡ credit_all (flows_of p (λ s. some 2) (λ s. some 11) p.positions) p
accrue_interval_flows-credit_all_example =
    accrue_interval_flows-credit_all (λ s. some 2) (λ s. some 11) (apply_all reversal account)
