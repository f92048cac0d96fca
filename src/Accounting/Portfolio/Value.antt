-- ===== src/Accounting/Portfolio/Value.antt =====
-- The valuation and the interval flows of src/accounting/portfolio.cpp. A map of prices or of rates is
-- read by its `find`.
use toy_quant_v.Base.{
  ℕ, ℤ, pos, ltb_ℤ, abs_ℤ, ◌==ℤ◌, Bool, true, false, ◌&&◌, ◌||◌, List, [], ◌∷◌, Option, none, some,
  ltb, ◌==◌, if◌then◌else◌, Bytes, length,
}
use toy_quant_v.Base.Symbols.{entry_of}
use toy_quant_v.Common.Float.{Float}
use toy_quant_v.Accounting.Portfolio.{Portfolio, PortfolioPosition, units, unit_value, value_of}

abbrev pub PriceMap : Type 0 → Type 0
PriceMap F = Bytes → Option F

pub record ExposureLeg (F : Type 0) : Type 0 where
  pub symbol : Bytes
  pub quantity : ℤ
  pub notional_usd : F

pub record PortfolioExposure (F : Type 0) : Type 0 where
  pub legs : List (ExposureLeg F)
  pub gross_usd : F
  pub net_usd : F
  pub fees_usd : F
  pub symbol_count : ℕ

-- `operator<` of two strings.
unfoldable pub bytes_lt : Bytes → Bytes → Bool
bytes_lt [] [] = false
bytes_lt [] (b ∷ bs) = true
bytes_lt (a ∷ as') [] = false
bytes_lt (a ∷ as') (b ∷ bs) = ltb a b || a == b && bytes_lt as' bs

module _ {F : Type 0} where
  -- `std::sort` of the legs by their symbols, which differ.
  unfoldable pub insert_leg : ExposureLeg F → List (ExposureLeg F) → List (ExposureLeg F)
  insert_leg l [] = l ∷ []
  insert_leg l (m ∷ ms) =
      let rest = insert_leg l ms in if bytes_lt l.symbol m.symbol then l ∷ m ∷ ms else m ∷ rest

  unfoldable pub sort_legs : List (ExposureLeg F) → List (ExposureLeg F)
  sort_legs [] = []
  sort_legs (l ∷ ls) = insert_leg l (sort_legs ls)

module _ {F : Type 0} ⦃fl : Float F⦄ where
  open fl use {f_zero, f_add, f_sub, f_mul, f_div, f_le, f_lt, f_eq, f_abs, f_neg, of_u64, of_i64}

  -- The body of the loop of `mark_values`, on the unrealized profit and the equity so far.
  unfoldable pub mark_position :
      Portfolio F → PriceMap F → Bytes × PortfolioPosition F → F × F → F × F
  mark_position p prices (symbol, x) (unrealized, equity) = elim (prices symbol) [
    | none ↦ (unrealized, equity)
    | some price ↦
        let amount = units p (abs_ℤ x.quantity) in
        let value_now = value_of p amount x.average_price price in
        let value_at_entry = f_mul (unit_value p x.average_price) amount in
        if x.quantity ==ℤ pos 0
        then (unrealized, equity)
        else if ltb_ℤ (pos 0) x.quantity
        then (f_add unrealized (f_sub value_now value_at_entry), f_add equity value_now)
        else (f_add unrealized (f_sub value_at_entry value_now), f_sub equity value_now)
  ]

  unfoldable pub mark_positions :
      Portfolio F → PriceMap F → List (Bytes × PortfolioPosition F) → F × F → F × F
  mark_positions p prices [] sums = sums
  mark_positions p prices (x ∷ xs) sums = mark_positions p prices xs (mark_position p prices x sums)

  unfoldable pub mark_values : PriceMap F → Portfolio F → F × F
  mark_values prices p = mark_positions p prices p.positions (f_zero, p.cash)

  unfoldable pub equity_at : PriceMap F → Portfolio F → F
  equity_at prices p = (mark_values prices p).1

  unfoldable pub mark_to_market : PriceMap F → Portfolio F → Portfolio F
  mark_to_market prices p =
      let (unrealized, equity) = mark_values prices p in
      record p { unrealized_pnl = unrealized; equity = equity }

  unfoldable pub legs_of :
      Portfolio F → PriceMap F → List (Bytes × PortfolioPosition F) → List (ExposureLeg F)
  legs_of p prices [] = []
  legs_of p prices ((symbol, x) ∷ xs) =
      let rest = legs_of p prices xs in
      let price : F = elim (prices symbol) [ none ↦ f_zero | some mark ↦ mark ] in
      let held = f_div (of_i64 x.quantity) (of_u64 p.quantity_scale) in
      let leg : ExposureLeg F = record {
        symbol = symbol;
        quantity = x.quantity;
        notional_usd = f_mul held (unit_value p price);
      } in
      if x.quantity ==ℤ pos 0 then rest else leg ∷ rest

  unfoldable pub sum_legs : List (ExposureLeg F) → F × F → F × F
  sum_legs [] sums = sums
  sum_legs (l ∷ ls) (gross, signed_sum) =
      sum_legs ls (f_add gross (f_abs l.notional_usd), f_add signed_sum l.notional_usd)

  unfoldable pub exposure : PriceMap F → Portfolio F → PortfolioExposure F
  exposure prices p =
      let legs = sort_legs (legs_of p prices p.positions) in
      let (gross, signed_sum) = sum_legs legs (f_zero, f_zero) in
      record {
        legs = legs;
        gross_usd = gross;
        net_usd = f_abs signed_sum;
        fees_usd = p.fees_paid;
        symbol_count = length legs;
      }

  -- The flow of one position, before the account is moved.
  unfoldable pub flow_of : Bytes → F → F → Portfolio F → F
  flow_of symbol rate mark_price p = elim (entry_of symbol p.positions) [
    | none ↦ f_zero
    | some x ↦
        let notional = f_mul (units p (abs_ℤ x.quantity)) (unit_value p mark_price) in
        if x.quantity ==ℤ pos 0 || f_le p.unit_notional_usd f_zero && f_le mark_price f_zero
        then f_zero
        else if ltb_ℤ (pos 0) x.quantity
        then f_mul notional rate
        else f_mul (f_neg notional) rate
  ]

  abbrev pub credit : F → Portfolio F → Portfolio F
  credit flow p = record p {
    cash = f_add p.cash flow;
    realized_pnl = f_add p.realized_pnl flow;
    equity = f_add p.equity flow;
  }

  unfoldable pub accrue_interval_flow : Bytes → F → F → Portfolio F → Portfolio F × F
  accrue_interval_flow symbol rate mark_price p =
      let flow = flow_of symbol rate mark_price p in
      if f_eq flow f_zero then (p, f_zero) else (credit flow p, flow)

  -- The loop over the positions, on the account and the total so far.
  unfoldable pub accrue_positions :
      PriceMap F
      → PriceMap F
      → List (Bytes × PortfolioPosition F)
      → Portfolio F × F
      → Portfolio F × F
  accrue_positions rates marks [] sums = sums
  accrue_positions rates marks ((symbol, x) ∷ xs) (p, total) =
      let next : Portfolio F × F = elim (rates symbol) [
        | none ↦ (p, total)
        | some rate ↦ elim (marks symbol) [
          | none ↦ (p, total)
          | some mark ↦
              let (p', flow) = accrue_interval_flow symbol rate mark p in (p', f_add total flow)
        ]
      ] in
      accrue_positions rates marks xs (if x.quantity ==ℤ pos 0 then (p, total) else next)

  unfoldable pub accrue_interval_flows : PriceMap F → PriceMap F → Portfolio F → Portfolio F × F
  accrue_interval_flows rates marks p = accrue_positions rates marks p.positions (p, f_zero)
