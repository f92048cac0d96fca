-- ===== src/Lines/Broker.antt =====
-- `PaperBroker` (src/lines/paper_broker.h, paper_broker.cpp) over any venue, and as a venue itself. What a
-- call forwards to the consumer's callback is the list that it gives.
pub mod Calls
pub mod Statement
pub mod Agree
pub mod Faultless
pub mod Counts
pub mod Flow
pub mod Log
pub mod Orders
use toy_quant_v.Base.{
  ℕ, ◌-◌, ◌/◌, ◌%◌, ℤ, pos, ◌+ℤ◌, neg_ℤ, to_i64, Bool, true, false, not, ◌&&◌, ◌||◌, List, [], ◌∷◌,
  ◌++◌, Option, none, some, ltb, ◌==◌, if◌then◌else◌, add64, Bytes, bytes, bytes_eq,
}
use toy_quant_v.Base.Symbols.{entry_of, put_entry}
use toy_quant_v.Common.Types.{ExecType}
use toy_quant_v.Common.Float.{Float}
use toy_quant_v.Exchange.Order.{
  Order, OrderSide, ExecutionReport, LiquidityRole, RejectReason, CancelReason, trade?,
}

pub record BrokerFaults : Type 0 where
  pub reject_every : ℕ
  pub partial_every : ℕ
  pub drop_every : ℕ
  pub outage_after : ℕ
  pub outage_holds : ℕ

pub record SymbolStatement (F : Type 0) : Type 0 where
  pub net_quantity : ℤ
  pub filled_quantity : ℕ
  pub fill_count : ℕ
  pub fees : F

pub record BrokerStatement (F : Type 0) : Type 0 where
  pub symbols : List (Bytes × SymbolStatement F)
  pub executions : ℕ
  pub forwarded_fills : ℕ
  pub fees : F

pub record BrokerSummary : Type 0 where
  pub orders_submitted : ℕ
  pub orders_rejected : ℕ
  pub fills_seen : ℕ
  pub fills_split : ℕ
  pub fills_dropped : ℕ
  pub outages : ℕ
  pub orders_held : ℕ
  pub orders_released : ℕ
  pub cancels_while_held : ℕ

pub record PaperBroker (F V : Type 0) : Type 0 where
  pub venue : V
  pub faults : BrokerFaults
  pub summary : BrokerSummary
  pub statement : BrokerStatement F
  pub held : List (Order F)
  pub accepted_orders : ℕ
  pub held_since_outage : ℕ
  pub outage_active : Bool
  pub outage_seen : Bool
  pub broker_rejects : ℕ

-- `every > 0 && count % every == 0`
abbrev pub falls_on : ℕ → ℕ → Bool
falls_on every count = ltb 0 every && count % every == 0

abbrev pub own_trade? : {F : Type 0} → ExecutionReport F → Bool
own_trade? r = trade? r.exec_type && bytes_eq r.owner (bytes "MarketMaker")

module _ {F V : Type 0} where
  unfoldable pub forward : ExecutionReport F → PaperBroker F V → PaperBroker F V
  forward r b =
      if own_trade? r
      then record b {
        statement = record b.statement { forwarded_fills = add64 b.statement.forwarded_fills 1 };
      }
      else b

module _ {F : Type 0} ⦃fl : Float F⦄ where
  abbrev pub no_statement : SymbolStatement F
  no_statement = record {
    net_quantity = pos 0;
    filled_quantity = 0;
    fill_count = 0;
    fees = fl.f_zero;
  }

  -- The symbol's entry of the statement after an execution.
  unfoldable pub executed_statement :
      ExecutionReport F → ℕ → F → SymbolStatement F → SymbolStatement F
  executed_statement r quantity fee s =
      let change : ℤ = elim r.side [
        | OrderSide.buy ↦ to_i64 quantity
        | OrderSide.sell ↦ neg_ℤ (to_i64 quantity)
      ] in
      record s {
        net_quantity = s.net_quantity +ℤ change;
        filled_quantity = add64 s.filled_quantity quantity;
        fill_count = add64 s.fill_count 1;
        fees = fl.f_add s.fees fee;
      }

  -- The two prints of a split fill.
  unfoldable pub first_print : ExecutionReport F → ExecutionReport F
  first_print r =
      let first = r.quantity / 2 in
      record r {
        quantity = first;
        fee = fl.f_div (fl.f_mul r.fee (fl.of_u64 first)) (fl.of_u64 r.quantity);
      }

  unfoldable pub second_print : ExecutionReport F → ExecutionReport F
  second_print r = record r {
    quantity = r.quantity - r.quantity / 2;
    fee = fl.f_sub r.fee (first_print r).fee;
  }

module _ {F V : Type 0} ⦃fl : Float F⦄ where
  unfoldable pub new_broker : BrokerFaults → V → PaperBroker F V
  new_broker faults v = record {
    venue = v;
    faults = faults;
    summary = record {
      orders_submitted = 0;
      orders_rejected = 0;
      fills_seen = 0;
      fills_split = 0;
      fills_dropped = 0;
      outages = 0;
      orders_held = 0;
      orders_released = 0;
      cancels_while_held = 0;
    };
    statement = record { symbols = []; executions = 0; forwarded_fills = 0; fees = fl.f_zero };
    held = [];
    accepted_orders = 0;
    held_since_outage = 0;
    outage_active = false;
    outage_seen = false;
    broker_rejects = 0;
  }

  unfoldable pub statement_of : Bytes → PaperBroker F V → SymbolStatement F
  statement_of symbol b = elim (entry_of symbol b.statement.symbols) [
    | none ↦ no_statement
    | some s ↦ s
  ]

  unfoldable pub record_execution : ExecutionReport F → ℕ → F → PaperBroker F V → PaperBroker F V
  record_execution r quantity fee b =
      let s = executed_statement r quantity fee (statement_of r.symbol b) in
      if bytes_eq r.owner (bytes "MarketMaker")
      then record b {
        statement = record b.statement {
          symbols = put_entry r.symbol s b.statement.symbols;
          executions = add64 b.statement.executions 1;
          fees = fl.f_add b.statement.fees fee;
        };
      }
      else b

  unfoldable pub on_venue_report :
      ExecutionReport F → PaperBroker F V → PaperBroker F V × List (ExecutionReport F)
  on_venue_report r b =
      let seen = record b {
        summary = record b.summary { fills_seen = add64 b.summary.fills_seen 1 };
      } in
      let written = record_execution r r.quantity r.fee seen in
      let n = written.summary.fills_seen in
      let dropped = record written {
        summary = record written.summary { fills_dropped = add64 written.summary.fills_dropped 1 };
      } in
      let told = forward (second_print r) (forward (first_print r) written) in
      let split = record told {
        summary = record told.summary { fills_split = add64 told.summary.fills_split 1 };
      } in
      if not (own_trade? r)
      then (forward r b, r ∷ [])
      else if falls_on b.faults.drop_every n
      then (dropped, [])
      else if falls_on b.faults.partial_every n && ltb 1 r.quantity
      then (split, first_print r ∷ second_print r ∷ [])
      else (forward r written, r ∷ [])

  unfoldable pub on_venue_reports :
      List (ExecutionReport F) → PaperBroker F V → PaperBroker F V × List (ExecutionReport F)
  on_venue_reports [] b = (b, [])
  on_venue_reports (r ∷ rs) b =
      let (b1, told) = on_venue_report r b in
      let (b2, later) = on_venue_reports rs b1 in (b2, told ++ later)

  -- A call of the venue with its reports.
  abbrev pub take_reports :
      PaperBroker F V → V × List (ExecutionReport F) → PaperBroker F V × List (ExecutionReport F)
  take_reports b (v, rs) = on_venue_reports rs (record b { venue = v })

module _ {F : Type 0} where
  unfoldable pub find_held : ℕ → List (Order F) → Option (Order F)
  find_held id [] = none
  find_held id (o ∷ os) = let later = find_held id os in if o.id == id then some o else later

  unfoldable pub erase_held : ℕ → List (Order F) → List (Order F)
  erase_held id [] = []
  erase_held id (o ∷ os) = let later = erase_held id os in if o.id == id then os else o ∷ later

  -- The report of an order that is cancelled before the venue has it.
  abbrev pub held_cancelled : F → Order F → ExecutionReport F
  held_cancelled no_fee o = record {
    order_id = o.id;
    side = o.side;
    exec_type = ExecType.cancelled;
    symbol = o.symbol;
    price = o.price;
    quantity = o.remaining;
    ts = o.ts;
    owner = o.owner;
    liquidity_role = LiquidityRole.unknown;
    fee = no_fee;
    reject_reason = RejectReason.none;
    cancel_reason = CancelReason.user;
  }
