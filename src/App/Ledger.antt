-- ===== src/App/Ledger.antt =====
-- `OrderLedger` (src/app/order_ledger.h, order_ledger.cpp) and the counters of `ExecutionQualityMetrics`
-- (src/app/run_summary.h) that it moves. The engine is its `queue_ahead_at`, a function of a symbol, a
-- side and a price; the trace of one order is in Trace. The two CSV writers are left out.
pub mod Report
pub mod Open
pub mod States
pub mod Trace
pub mod Tally
pub mod History
use toy_quant_v.Base.{
  ℕ, ◌+◌, ◌-◌, Bool, true, false, not, ◌&&◌, ◌||◌, List, [], ◌∷◌, map, Option, none, some, ltb, leb,
  ◌==◌, if◌then◌else◌, Bytes, add64,
}
use toy_quant_v.Base.Maps.{lookup, insert, erase, contains_key}
use toy_quant_v.Common.Types.{Side}
use toy_quant_v.Common.Float.{Float}
use toy_quant_v.Exchange.Order.{Order, OrderSide, OrderType, ExecutionReport}
use toy_quant_v.App.Orders.{StrategyOrder}

pub data OrderState : Type 0 where
  pending resting partially_filled filled cancelled rejected : OrderState

pub record OrderAudit (F : Type 0) : Type 0 where
  pub state : OrderState
  pub start_cycle : ℕ
  pub filled : Bool
  pub filled_quantity : ℕ
  pub commission : F
  pub profiling : Bool
  pub side : Side
  pub symbol : Bytes
  pub price : F
  pub queue_at_rest : ℕ
  pub min_queue_ahead : ℕ
  pub queue_at_end : ℕ

pub record Quality (F : Type 0) : Type 0 where
  pub total_quote_lifetime : ℕ
  pub max_quote_lifetime : ℕ
  pub audited_orders : ℕ
  pub audited_filled_orders : ℕ
  pub audited_cancelled_orders : ℕ
  pub audited_rejected_orders : ℕ
  pub invalid_order_transitions : ℕ
  pub orphan_order_reports : ℕ
  pub cancelled_after_fill_orders : ℕ
  pub cancelled_before_fill_orders : ℕ
  pub orders_that_filled : ℕ
  pub filled_order_count_by_size : List ℕ
  pub filled_order_quantity_by_size : List ℕ
  pub min_commission_orders : ℕ
  pub min_commission_paid : F
  pub total_order_lifetime_cycles : ℕ

pub record OrderLedger (F : Type 0) : Type 0 where
  pub order_audit : List (ℕ × OrderAudit F)
  pub order_start_cycles : List (ℕ × ℕ)
  pub pending_cancel_orders : List ℕ
  pub queue_min_fractions : List F
  pub queue_end_fractions : List F
  pub queue_profile_orders : ℕ
  pub queue_zero_orders : ℕ
  pub first_fill_order_id : ℕ
  pub longest_wait_filled_order_id : ℕ
  pub longest_wait_filled_cycles : ℕ

-- The engine's answer for a symbol, a side and a price.
abbrev pub QueueAhead : Type 0 → Type 0
QueueAhead F = Bytes → Side → F → ℕ

-- The lambda `allowed` of `transition`.
unfoldable pub allowed : OrderState → OrderState → Bool
allowed pending pending = false
allowed pending resting = true
allowed pending partially_filled = true
allowed pending filled = true
allowed pending cancelled = true
allowed pending rejected = true
allowed resting pending = false
allowed resting resting = false
allowed resting partially_filled = true
allowed resting filled = true
allowed resting cancelled = true
allowed resting rejected = true
allowed partially_filled pending = false
allowed partially_filled resting = false
allowed partially_filled partially_filled = true
allowed partially_filled filled = true
allowed partially_filled cancelled = true
allowed partially_filled rejected = true
allowed filled to = false
allowed cancelled to = false
allowed rejected to = false

abbrev pub common_side : OrderSide → Side
common_side OrderSide.buy = Side.buy
common_side OrderSide.sell = Side.sell

-- `quote_cycle >= start ? quote_cycle - start : 0`
abbrev pub cycles_since : ℕ → ℕ → ℕ
cycles_since start cycle = if leb start cycle then cycle - start else 0

module _ {F : Type 0} where
  unfoldable pub to_exchange_order : StrategyOrder F → ℕ → Bytes → Order F
  to_exchange_order o ts owner = record {
    id = o.order_id;
    symbol = o.symbol;
    side = elim o.side [
      | Side.unknown ↦ OrderSide.sell
      | Side.buy ↦ OrderSide.buy
      | Side.sell ↦ OrderSide.sell
    ];
    order_type = OrderType.limit;
    price = o.price;
    qty = o.quantity;
    remaining = o.quantity;
    ts = ts;
    owner = owner;
    time_in_force = o.time_in_force;
  }

  unfoldable pub transition : OrderState → OrderState → Quality F → OrderState × Quality F × Bool
  transition state next q = if allowed state next then (next, q, true) else (
    state,
    record q { invalid_order_transitions = add64 q.invalid_order_transitions 1 },
    false,
  )

  unfoldable pub order_state : ℕ → OrderLedger F → Option OrderState
  order_state id l = elim (lookup id l.order_audit) [ none ↦ none | some a ↦ some a.state ]

  unfoldable pub forget_order : ℕ → OrderLedger F → OrderLedger F
  forget_order id l = record l {
    order_audit = erase id l.order_audit;
    order_start_cycles = erase id l.order_start_cycles;
  }

  -- The audit of an order that rests: its level, and the queue that it joined behind.
  abbrev pub profiled : QueueAhead F → ExecutionReport F → OrderAudit F → OrderAudit F
  profiled queue r a =
      let at_rest = queue r.symbol (common_side r.side) r.price in
      record a {
        profiling = true;
        symbol = r.symbol;
        side = common_side r.side;
        price = r.price;
        queue_at_rest = at_rest;
        min_queue_ahead = at_rest;
      }

  unfoldable pub mark_resting :
      QueueAhead F → ExecutionReport F → OrderLedger F → Quality F → OrderLedger F × Quality F
  mark_resting queue r l q = elim (lookup r.order_id l.order_audit) [
    | none ↦ (l, q)
    | some a ↦
        let (state, q', moved) = transition a.state OrderState.resting q in
        let rested = profiled queue r (record a { state = state }) in
        if moved
        then (record l { order_audit = insert r.order_id rested l.order_audit }, q')
        else (l, q')
  ]

  -- False where the cancel was requested before.
  unfoldable pub begin_cancel : QueueAhead F → ℕ → OrderLedger F → OrderLedger F × Bool
  begin_cancel queue id l =
      let asked = record l { pending_cancel_orders = id ∷ l.pending_cancel_orders } in
      if contains_key id l.pending_cancel_orders
      then (l, false)
      else elim (lookup id l.order_audit) [
        | none ↦ (asked, true)
        | some a ↦
            let read = record a { queue_at_end = queue a.symbol a.side a.price } in
            if a.profiling
            then (record asked { order_audit = insert id read l.order_audit }, true)
            else (asked, true)
      ]

  unfoldable pub sample_audit : QueueAhead F → OrderAudit F → OrderAudit F
  sample_audit queue a =
      let now = queue a.symbol a.side a.price in
      if a.profiling && ltb now a.min_queue_ahead then record a { min_queue_ahead = now } else a

  unfoldable pub sample_all : QueueAhead F → List (ℕ × OrderAudit F) → List (ℕ × OrderAudit F)
  sample_all queue [] = []
  sample_all queue ((id, a) ∷ rest) = (id, sample_audit queue a) ∷ sample_all queue rest

  unfoldable pub sample_resting : QueueAhead F → OrderLedger F → OrderLedger F
  sample_resting queue l = record l { order_audit = sample_all queue l.order_audit }

  -- The loop, from the longest so far.
  unfoldable pub longest_from : ℕ → List (ℕ × OrderAudit F) → ℕ × ℕ → ℕ × ℕ
  longest_from cycle [] best = best
  longest_from cycle ((id, a) ∷ rest) (best_id, longest) =
      let lifetime = cycles_since a.start_cycle cycle in
      longest_from cycle rest (if ltb longest lifetime then (id, lifetime) else (best_id, longest))

  unfoldable pub longest_working_order : ℕ → OrderLedger F → ℕ × ℕ
  longest_working_order cycle l = longest_from cycle l.order_audit (0, 0)

module _ {F : Type 0} ⦃fl : Float F⦄ where
  unfoldable pub open_order : ℕ → ℕ → OrderLedger F → Quality F → OrderLedger F × Quality F
  open_order id start_cycle l q =
      let audit : OrderAudit F = record {
        state = OrderState.pending;
        start_cycle = start_cycle;
        filled = false;
        filled_quantity = 0;
        commission = fl.f_zero;
        profiling = false;
        side = Side.unknown;
        symbol = [];
        price = fl.f_zero;
        queue_at_rest = 0;
        min_queue_ahead = 0;
        queue_at_end = 0;
      } in
      (
        record l {
          order_start_cycles = insert id start_cycle l.order_start_cycles;
          order_audit = insert id audit l.order_audit;
        },
        record q { audited_orders = add64 q.audited_orders 1 },
      )
