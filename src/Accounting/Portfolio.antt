-- ===== src/Accounting/Portfolio.antt =====
-- `Portfolio` (src/accounting/portfolio.h, portfolio.cpp). Quantities are far inside 64 bits, so the sums
-- of int64_t do not overflow; the casts are written out. The texts of the reports are left out.
pub mod Value
pub mod Flows
pub mod Positions
use toy_quant_v.Base.{
  ℕ, ℤ, pos, ◌+ℤ◌, ◌-ℤ◌, ltb_ℤ, abs_ℤ, neg_ℤ, to_i64, to_u64, ◌==ℤ◌, Bool, true, false, not, ◌||◌,
  List, [], ◌∷◌, ◌++◌, Option, none, some, ltb, ◌==◌, if◌then◌else◌, add64, Bytes,
}
use toy_quant_v.Base.Symbols.{entry_of, put_entry}
use toy_quant_v.Common.Float.{Float}
use toy_quant_v.Common.Fees.{unit_notional_at, position_value}
use toy_quant_v.Exchange.Order.{
  ExecutionReport, OrderSide, LiquidityRole, trade?, executed_quantity,
}

pub record PortfolioPosition (F : Type 0) : Type 0 where
  pub quantity : ℤ
  pub average_price : F
  pub entry_ts : ℕ
  pub entry_fees : F
  pub traded_quantity : ℕ

pub record ClosedTrade (F : Type 0) : Type 0 where
  pub symbol : Bytes
  pub side : OrderSide
  pub entry_price : F
  pub exit_price : F
  pub quantity : F
  pub pnl : F
  pub fee : F
  pub entry_ts : ℕ
  pub exit_ts : ℕ

pub record Portfolio (F : Type 0) : Type 0 where
  pub quantity_scale : ℕ
  pub unit_notional_usd : F
  pub multiplier : F
  pub initial_cash : F
  pub cash : F
  pub realized_pnl : F
  pub unrealized_pnl : F
  pub equity : F
  pub fees_paid : F
  pub maker_fees : F
  pub taker_fees : F
  pub maker_trade_count : ℕ
  pub taker_trade_count : ℕ
  pub recording : Bool
  pub closed_trades : List (ClosedTrade F)
  pub positions : List (Bytes × PortfolioPosition F)

-- `std::min` of two int64_t.
abbrev pub min_ℤ : ℤ → ℤ → ℤ
min_ℤ a b = if ltb_ℤ b a then b else a

-- `std::max<int64_t>(0, q)` as a uint64_t
abbrev pub at_least_zero : ℤ → ℕ
at_least_zero q = if ltb_ℤ (pos 0) q then to_u64 q else 0

abbrev pub opposite : OrderSide → OrderSide
opposite OrderSide.buy = OrderSide.sell
opposite OrderSide.sell = OrderSide.buy

-- The signed size of a buy or of a sale.
abbrev pub signed : OrderSide → ℤ → ℤ
signed OrderSide.buy q = q
signed OrderSide.sell q = neg_ℤ q

module _ {F : Type 0} where
  -- `record_closed_trades`
  unfoldable pub set_recording : Bool → Portfolio F → Portfolio F
  set_recording enabled p = record p { recording = enabled }

module _ {F : Type 0} ⦃fl : Float F⦄ where
  open fl use {f_zero, f_add, f_sub, f_mul, f_div, f_lt, f_le, f_eq, of_u64, of_i64}

  unfoldable pub new_portfolio : ℕ → F → F → F → Portfolio F
  new_portfolio scale cash unit_notional multiplier = record {
    quantity_scale = if scale == 0 then 1 else scale;
    unit_notional_usd = unit_notional;
    multiplier = multiplier;
    initial_cash = cash;
    cash = cash;
    realized_pnl = f_zero;
    unrealized_pnl = f_zero;
    equity = cash;
    fees_paid = f_zero;
    maker_fees = f_zero;
    taker_fees = f_zero;
    maker_trade_count = 0;
    taker_trade_count = 0;
    recording = false;
    closed_trades = [];
    positions = [];
  }

  unfoldable pub reset : Portfolio F → Portfolio F
  reset p = record p {
    positions = [];
    closed_trades = [];
    cash = p.initial_cash;
    realized_pnl = f_zero;
    unrealized_pnl = f_zero;
    equity = p.initial_cash;
    fees_paid = f_zero;
    maker_fees = f_zero;
    taker_fees = f_zero;
    maker_trade_count = 0;
    taker_trade_count = 0;
  }

  unfoldable pub charge_fee : F → Portfolio F → Portfolio F
  charge_fee fee p = if f_eq fee f_zero then p else record p {
    fees_paid = f_add p.fees_paid fee;
    cash = f_sub p.cash fee;
    realized_pnl = f_sub p.realized_pnl fee;
  }

  abbrev pub units : Portfolio F → ℕ → F
  units p quantity = f_div (of_u64 quantity) (of_u64 p.quantity_scale)

  abbrev pub unit_value : Portfolio F → F → F
  unit_value p price = unit_notional_at p.unit_notional_usd p.multiplier price

  abbrev pub value_of : Portfolio F → F → F → F → F
  value_of p amount entry_price price =
      position_value p.unit_notional_usd p.multiplier amount entry_price price

  abbrev pub no_position : PortfolioPosition F
  no_position = record {
    quantity = pos 0;
    average_price = f_zero;
    entry_ts = 0;
    entry_fees = f_zero;
    traded_quantity = 0;
  }

  unfoldable pub position_in : Bytes → Portfolio F → PortfolioPosition F
  position_in symbol p = elim (entry_of symbol p.positions) [ none ↦ no_position | some x ↦ x ]

  -- The fee of a trade.
  unfoldable pub book_fee : ExecutionReport F → Portfolio F → Portfolio F
  book_fee r p =
      let paid = record p { fees_paid = f_add p.fees_paid r.fee } in
      let split : Portfolio F = elim r.liquidity_role [
        | LiquidityRole.maker ↦ record paid {
          maker_fees = f_add p.maker_fees r.fee;
          maker_trade_count = add64 p.maker_trade_count 1;
        }
        | LiquidityRole.taker ↦ record paid {
          taker_fees = f_add p.taker_fees r.fee;
          taker_trade_count = add64 p.taker_trade_count 1;
        }
        | LiquidityRole.unknown ↦ paid
      ] in
      record split { cash = f_sub p.cash r.fee; realized_pnl = f_sub p.realized_pnl r.fee }

  -- The lambda `settle_close`: the account, and the fees that the position still carries.
  unfoldable pub settle_close :
      ExecutionReport F → ℤ → PortfolioPosition F → Portfolio F → PortfolioPosition F × Portfolio F
  settle_close r close_quantity x p =
      let closed = units p (to_u64 close_quantity) in
      let value_now = value_of p closed x.average_price r.price in
      let value_at_entry = f_mul (unit_value p x.average_price) closed in
      let (cash, pnl) : F × F = elim r.side [
        | OrderSide.buy ↦ (f_sub p.cash value_now, f_sub value_at_entry value_now)
        | OrderSide.sell ↦ (f_add p.cash value_now, f_sub value_now value_at_entry)
      ] in
      let settled = record p { cash = cash; realized_pnl = f_add p.realized_pnl pnl } in
      let closing_fee =
        f_div (f_mul r.fee (of_i64 close_quantity)) (of_u64 (executed_quantity r)) in
      let held = units p (abs_ℤ x.quantity) in
      let share = if f_lt f_zero held then f_mul x.entry_fees (f_div closed held) else f_zero in
      let trade : ClosedTrade F = record {
        symbol = r.symbol;
        side = opposite r.side;
        entry_price = x.average_price;
        exit_price = r.price;
        quantity = closed;
        pnl = pnl;
        fee = f_add closing_fee share;
        entry_ts = x.entry_ts;
        exit_ts = r.ts;
      } in
      (
        record x { entry_fees = f_sub x.entry_fees share },
        if p.recording
            then record settled { closed_trades = p.closed_trades ++ trade ∷ [] }
            else settled,
      )

  -- The first part of each branch: what the trade closes of a position on the other side. The rest of
  -- the trade is the third component.
  unfoldable pub close_part :
      ExecutionReport F
      → ℤ
      → PortfolioPosition F
      → Portfolio F
      → PortfolioPosition F × Portfolio F × ℤ
  close_part r remaining x p =
      let against = neg_ℤ (signed r.side x.quantity) in
      let closing = min_ℤ against remaining in
      let (settled, p') = settle_close r closing x p in
      if ltb_ℤ (pos 0) against
      then (
        record settled { quantity = x.quantity +ℤ signed r.side closing },
        p',
        remaining -ℤ closing,
      )
      else (x, p, remaining)

  -- The second part: what it opens.
  unfoldable pub open_part :
      ExecutionReport F → ℤ → PortfolioPosition F → Portfolio F → PortfolioPosition F × Portfolio F
  open_part r remaining x p =
      let opened = units p (to_u64 remaining) in
      let existing = units p (at_least_zero (signed r.side x.quantity)) in
      let total = f_add existing opened in
      let (ts, carried) : ℕ × F =
        if x.quantity ==ℤ pos 0 then (r.ts, f_zero) else (x.entry_ts, x.entry_fees) in
      let fee = f_div (f_mul r.fee (of_i64 remaining)) (of_u64 (executed_quantity r)) in
      let value = f_mul (unit_value p r.price) opened in
      let average =
        if f_lt f_zero total
        then f_div (f_add (f_mul existing x.average_price) (f_mul opened r.price)) total
        else f_zero in
      let cash : F = elim r.side [
        | OrderSide.buy ↦ f_sub p.cash value
        | OrderSide.sell ↦ f_add p.cash value
      ] in
      if ltb_ℤ (pos 0) remaining
      then (
        record x {
          entry_ts = ts;
          entry_fees = f_add carried fee;
          average_price = average;
          quantity = x.quantity +ℤ signed r.side remaining;
        },
        record p { cash = cash },
      )
      else (x, p)

  unfoldable pub close_and_open :
      ExecutionReport F → ℤ → PortfolioPosition F → Portfolio F → PortfolioPosition F × Portfolio F
  close_and_open r quantity x p =
      let (x1, p1, left) = close_part r quantity x p in open_part r left x1 p1

  unfoldable pub apply : ExecutionReport F → Portfolio F → Portfolio F
  apply r p =
      let x = position_in r.symbol p in
      let traded = record x { traded_quantity = add64 x.traded_quantity (executed_quantity r) } in
      let (x', p') = close_and_open r (to_i64 (executed_quantity r)) traded (book_fee r p) in
      if not (trade? r.exec_type) || r.quantity == 0
      then p
      else record p' { positions = put_entry r.symbol x' p'.positions }
