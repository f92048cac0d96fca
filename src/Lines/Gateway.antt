-- ===== src/Lines/Gateway.antt =====
-- `OrderGateway` (src/lines/order_gateway.h, order_gateway.cpp) over any venue. What a call forwards to
-- the consumer's callback is the list that it gives. The readers that only forward are left out.
pub mod Calls
pub mod History
pub mod Sweep
pub mod Bounds
pub mod Transparent
pub mod Tally
use toy_quant_v.Base.{
  ℕ, ◌-◌, Bool, true, false, not, ◌&&◌, ◌||◌, List, [], ◌∷◌, ◌++◌, Option, none, some, ltb, leb,
  ◌==◌, if◌then◌else◌, add64,
}
use toy_quant_v.Base.Maps.{lookup, insert, erase, contains}
use toy_quant_v.Common.Types.{ExecType, BboQuote, MarketTrade}
use toy_quant_v.Exchange.Order.{Order, ExecutionReport}
use toy_quant_v.Exchange.Venue.{MatchingEngine, OrderQuery}

pub record GatewayConfig : Type 0 where
  pub ack_timeout_us : ℕ
  pub retry_on_timeout : Bool

pub record GatewaySummary : Type 0 where
  pub submissions : ℕ
  pub duplicates_suppressed : ℕ
  pub acks : ℕ
  pub ack_timeouts : ℕ
  pub unacknowledged : ℕ
  pub timeouts_queried : ℕ
  pub timeouts_working : ℕ
  pub timeouts_unknown : ℕ
  pub retries : ℕ
  pub retry_rejections : ℕ
  pub venue_rejects : ℕ
  pub cancels : ℕ
  pub cancels_after_fill : ℕ

pub record Tracked (F : Type 0) : Type 0 where
  pub order : Order F
  pub submitted_ts : ℕ
  pub remaining : ℕ
  pub answered : Bool
  pub timed_out : Bool
  pub queried : Bool
  pub venue_working : Bool
  pub retried : Bool

pub record OrderGateway (F V : Type 0) : Type 0 where
  pub venue : V
  pub config : GatewayConfig
  pub summary : GatewaySummary
  pub in_flight : List (ℕ × Tracked F)

abbrev pub zero_summary : GatewaySummary
zero_summary = record {
  submissions = 0;
  duplicates_suppressed = 0;
  acks = 0;
  ack_timeouts = 0;
  unacknowledged = 0;
  timeouts_queried = 0;
  timeouts_working = 0;
  timeouts_unknown = 0;
  retries = 0;
  retry_rejections = 0;
  venue_rejects = 0;
  cancels = 0;
  cancels_after_fill = 0;
}

abbrev pub working? : OrderQuery → Bool
working? OrderQuery.working = true
working? OrderQuery.unknown = false

module _ {F : Type 0} where
  abbrev pub unanswered? : Tracked F → Bool
  unanswered? t = t.timed_out && not t.answered

  unfoldable pub count_unanswered : List (ℕ × Tracked F) → ℕ
  count_unanswered [] = 0
  count_unanswered ((id, t) ∷ rest) =
      let n = count_unanswered rest in if unanswered? t then add64 n 1 else n

  -- What is left of the order after the report.
  unfoldable pub remaining_after : ExecutionReport F → ℕ → ℕ
  remaining_after r left = elim r.exec_type [
    | ExecType.trade ↦ if leb left r.quantity then 0 else left - r.quantity
    | ExecType.resting ↦ r.quantity
    | ExecType.partial_fill ↦ r.quantity
    | ExecType.filled ↦ 0
    | ExecType.cancelled ↦ 0
    | ExecType.rejected ↦ 0
  ]

  abbrev pub overdue : GatewayConfig → ℕ → Tracked F → Bool
  overdue config now t =
      not (ltb now t.submitted_ts) && leb config.ack_timeout_us (now - t.submitted_ts)

  -- The body of the first loop of `sweep_timeouts`, in its three parts.
  unfoldable pub time_out : Tracked F → GatewaySummary → Tracked F × GatewaySummary
  time_out t s =
      if t.timed_out
      then (t, s)
      else (record t { timed_out = true }, record s { ack_timeouts = add64 s.ack_timeouts 1 })

  unfoldable pub query_once :
      (ℕ → OrderQuery) → ℕ → Tracked F → GatewaySummary → Tracked F × GatewaySummary
  query_once query id t s =
      let held = working? (query id) in
      let asked = record s { timeouts_queried = add64 s.timeouts_queried 1 } in
      if t.queried then (t, s) else (
        record t { queried = true; venue_working = held },
        if held
            then record asked { timeouts_working = add64 s.timeouts_working 1 }
            else record asked { timeouts_unknown = add64 s.timeouts_unknown 1 },
      )

  unfoldable pub retry_once :
      GatewayConfig → Tracked F → GatewaySummary → Tracked F × GatewaySummary × List (Order F)
  retry_once config t s =
      if config.retry_on_timeout && not t.retried
      then (record t { retried = true }, record s { retries = add64 s.retries 1 }, t.order ∷ [])
      else (t, s, [])

  unfoldable pub sweep_one :
      GatewayConfig
      → (ℕ → OrderQuery)
      → ℕ
      → ℕ
      → Tracked F
      → GatewaySummary
      → Tracked F × GatewaySummary × List (Order F)
  sweep_one config query now id t s =
      let (t1, s1) = time_out t s in
      let (t2, s2) = query_once query id t1 s1 in
      if t.answered || not t.timed_out && not (overdue config now t)
      then (t, s, [])
      else retry_once config t2 s2

  unfoldable pub sweep_table :
      GatewayConfig
      → (ℕ → OrderQuery)
      → ℕ
      → List (ℕ × Tracked F)
      → GatewaySummary
      → List (ℕ × Tracked F) × GatewaySummary × List (Order F)
  sweep_table config query now [] s = ([], s, [])
  sweep_table config query now ((id, t) ∷ rest) s =
      let (t', s1, due) = sweep_one config query now id t s in
      let (rest', s2, later) = sweep_table config query now rest s1 in
      ((id, t') ∷ rest', s2, due ++ later)

module _ {F V : Type 0} where
  unfoldable pub new_gateway : GatewayConfig → V → OrderGateway F V
  new_gateway config v = record {
    venue = v;
    config = config;
    summary = zero_summary;
    in_flight = [];
  }

  unfoldable pub refresh_unacknowledged : OrderGateway F V → OrderGateway F V
  refresh_unacknowledged g = record g {
    summary = record g.summary { unacknowledged = count_unanswered g.in_flight };
  }

  unfoldable pub on_venue_report : ExecutionReport F → OrderGateway F V → OrderGateway F V
  on_venue_report r g =
      let recorded : OrderGateway F V = elim (lookup r.order_id g.in_flight) [
        | none ↦ g
        | some t ↦
            let t' = record t { answered = true; remaining = remaining_after r t.remaining } in
            let acked =
              if t.answered
              then g.summary
              else record g.summary { acks = add64 g.summary.acks 1 } in
            record g {
              summary = acked;
              in_flight =
                  if t'.remaining == 0
                  then erase r.order_id g.in_flight
                  else insert r.order_id t' g.in_flight;
            }
      ] in
      refresh_unacknowledged recorded

  -- The reports that the venue calls back with during one of its calls, in their order.
  unfoldable pub on_venue_reports : List (ExecutionReport F) → OrderGateway F V → OrderGateway F V
  on_venue_reports [] g = g
  on_venue_reports (r ∷ rs) g = on_venue_reports rs (on_venue_report r g)

  -- A call of the venue with its reports.
  abbrev pub take_reports : OrderGateway F V → V × List (ExecutionReport F) → OrderGateway F V
  take_reports g (v, rs) = on_venue_reports rs (record g { venue = v })
