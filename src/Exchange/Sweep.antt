-- ===== src/Exchange/Sweep.antt =====
-- The matching loops of `MatchingEngine::match_side` (src/exchange/matching_engine.cpp): an incoming
-- order against the levels of the other side. `Sweep` is what the loops write beside the levels; the
-- reports stand newest first. The three counters are those of the side that is swept.
pub mod Volume
pub mod Priority
pub mod Limit
pub mod Index
use toy_quant_v.Base.{
  ℕ, ℤ, ◌+◌, ◌-◌, min, Bytes, bytes, bytes_eq, Bool, true, false, not, ◌&&◌, ◌||◌, List, [], ◌∷◌,
  ltb, leb, ◌==◌, ltb_ℤ, if◌then◌else◌, add64,
}
use toy_quant_v.Base.Maps.{erase}
use toy_quant_v.Common.Types.{ExecType}
use toy_quant_v.Common.Float.{Float, to_price}
use toy_quant_v.Common.Fees.{FeeSchedule, fee_on_fill, schedule_fee_on_fill}
use toy_quant_v.Exchange.Order.{
  Order, OrderSide, buy, sell, LiquidityRole, RejectReason, CancelReason, ExecutionReport,
}
use toy_quant_v.Exchange.Book.{PriceLevel, Levels}

-- A pointer of `order_index_`: the level that holds the order.
pub record Place : Type 0 where
  pub symbol_id : ℕ
  pub side : OrderSide
  pub tick : ℤ

pub record Sweep (F : Type 0) : Type 0 where
  pub qty : ℕ
  pub order_index : List (ℕ × Place)
  pub reports : List (ExecutionReport F)
  pub queue_ahead_consumed : ℕ
  pub side_consumed : ℕ
  pub side_cleared : ℕ

-- `std::isspace` and `std::tolower` in the C locale.
abbrev pub is_space : ℕ → Bool
is_space c = c == 32 || leb 9 c && leb c 13

abbrev pub to_lower : ℕ → ℕ
to_lower c = if leb 65 c && leb c 90 then c + 32 else c

unfoldable pub normalize_owner : Bytes → Bytes
normalize_owner [] = []
normalize_owner (c ∷ cs) =
    if is_space c then normalize_owner cs else to_lower c ∷ normalize_owner cs

abbrev pub is_empty {ℓ} : {A : Type ℓ} → List A → Bool
is_empty [] = true
is_empty (x ∷ xs) = false

abbrev pub market_owner : Bytes
market_owner = bytes "Market"

abbrev pub buy? : OrderSide → Bool
buy? buy = true
buy? sell = false

abbrev pub maker? : LiquidityRole → Bool
maker? LiquidityRole.maker = true
maker? LiquidityRole.taker = false
maker? LiquidityRole.unknown = false

-- `incoming_price < best_price` for a buy, `>` for a sell: the level is out of reach.
abbrev pub out_of_reach : OrderSide → ℤ → ℤ → Bool
out_of_reach buy incoming_price best_price = ltb_ℤ incoming_price best_price
out_of_reach sell incoming_price best_price = ltb_ℤ best_price incoming_price

abbrev pub filled_or_partial : ℕ → ExecType
filled_or_partial left = if left == 0 then ExecType.filled else ExecType.partial_fill

module _ {F : Type 0} where
  unfoldable pub is_self_trade : Order F → Order F → Bool
  is_self_trade resting incoming =
      not (is_empty resting.owner || is_empty incoming.owner)
      && bytes_eq (normalize_owner resting.owner) (normalize_owner incoming.owner)

  -- `order_index_.erase(resting.id)`
  abbrev pub pop_order : ℕ → Sweep F → Sweep F
  pop_order id s = record s { order_index = erase id s.order_index }

  -- A synthetic venue order first takes the displayed size that stands before the orders of the level.
  unfoldable pub consume_queue : Order F → PriceLevel F → Sweep F → PriceLevel F × Sweep F
  consume_queue inc level s =
      let consumed = min s.qty level.external_queue_ahead in
      let left = level.external_queue_ahead - consumed in
      if bytes_eq inc.owner market_owner && ltb 0 level.external_queue_ahead
      then (
        record level { external_queue_ahead = left },
        record s {
          qty = s.qty - consumed;
          queue_ahead_consumed = add64 s.queue_ahead_consumed consumed;
          side_consumed = add64 s.side_consumed consumed;
          side_cleared =
              if left == 0 && not (is_empty level.orders)
              then add64 s.side_cleared 1
              else s.side_cleared;
        },
      )
      else (level, s)

module _ {F : Type 0} ⦃fl : Float F⦄ where
  -- A report of an order's state: the fields that a designated initializer leaves out are the defaults.
  unfoldable pub state_report : Order F → ExecType → F → ℕ → ℕ → CancelReason → ExecutionReport F
  state_report o exec_type price quantity ts cancel_reason = record {
    order_id = o.id;
    side = o.side;
    exec_type = exec_type;
    symbol = o.symbol;
    price = price;
    quantity = quantity;
    ts = ts;
    owner = o.owner;
    liquidity_role = LiquidityRole.unknown;
    fee = fl.f_zero;
    reject_reason = RejectReason.none;
    cancel_reason = cancel_reason;
  }

  -- `report_trade`, with the schedule that the engine keeps.
  unfoldable pub trade_report :
      FeeSchedule F → Order F → F → ℕ → LiquidityRole → ℕ → ExecutionReport F
  trade_report fs o price quantity role ts =
      let rate = if maker? role then fs.maker_rate else fs.taker_rate in
      record (state_report o ExecType.trade price quantity ts CancelReason.none) {
        liquidity_role = role;
        fee =
            fl.f_add
              (fee_on_fill rate fs.unit_notional_usd fs.multiplier fs.fee_per_share price quantity
                fs.quantity_scale)
              (schedule_fee_on_fill fs price quantity (not (buy? o.side)) (maker? role));
      }

  -- What one trade with the resting order `o` writes: two trades, the resting order's state, the sizes.
  unfoldable pub fill_one : FeeSchedule F → F → Order F → ℤ → Order F → ℕ → Sweep F → Sweep F
  fill_one fs tick_size inc best o traded s =
      let price = to_price best tick_size in
      let left = o.remaining - traded in
      record s {
        qty = s.qty - traded;
        reports =
            state_report o (filled_or_partial left) price left inc.ts CancelReason.none
            ∷ trade_report fs o price traded LiquidityRole.maker inc.ts
            ∷ trade_report fs inc price traded LiquidityRole.taker inc.ts
            ∷ s.reports;
      }

  unfoldable pub prevent_self_trade : Order F → Sweep F → Sweep F
  prevent_self_trade inc s = record s {
    qty = 0;
    reports =
        state_report inc ExecType.cancelled inc.price s.qty inc.ts CancelReason.self_trade
        ∷ s.reports;
  }

  -- The inner loop, over the orders of the best level. Where an order keeps a remainder the incoming
  -- quantity is used up, so the loop ends: `fill_orders` returns there without another turn.
  unfoldable pub fill_orders :
      FeeSchedule F → F → Order F → ℤ → List (Order F) → Sweep F → List (Order F) × Sweep F
  fill_orders fs tick_size inc best [] s = ([], s)
  fill_orders fs tick_size inc best (o ∷ os) s =
      let traded = min s.qty o.remaining in
      let done = fill_one fs tick_size inc best o traded s in
      let rest = fill_orders fs tick_size inc best os (pop_order o.id done) in
      if s.qty == 0
      then (o ∷ os, s)
      else if is_self_trade o inc
      then (o ∷ os, prevent_self_trade inc s)
      else if o.remaining - traded == 0
      then rest
      else (record o { remaining = o.remaining - traded } ∷ os, done)

  -- The outer loop, over the levels. A level that keeps an order has used the quantity up.
  unfoldable pub match_levels :
      FeeSchedule F → F → Order F → ℤ → Levels F → Sweep F → Levels F × Sweep F
  match_levels fs tick_size inc incoming_price [] s = ([], s)
  match_levels fs tick_size inc incoming_price ((best, level) ∷ ls) s =
      let (level', s') = consume_queue inc level s in
      let (orders', s'') = fill_orders fs tick_size inc best level'.orders s' in
      let rest = match_levels fs tick_size inc incoming_price ls s'' in
      if s.qty == 0 || out_of_reach inc.side incoming_price best
      then ((best, level) ∷ ls, s)
      else if s'.qty == 0
      then ((best, level') ∷ ls, s')
      else if is_empty orders'
      then rest
      else ((best, record level' { orders = orders' }) ∷ ls, s'')
