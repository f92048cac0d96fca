-- ===== src/App/Ledger/Report.antt =====
-- `OrderLedger::on_report` (src/app/order_ledger.cpp), one function for each of its parts.
use toy_quant_v.Base.{
  ℕ, max, Bool, true, false, not, ◌&&◌, List, [], ◌∷◌, ◌++◌, Option, none, some, ltb, leb, ◌==◌,
  if◌then◌else◌, Bytes, bytes, bytes_eq, add64, get_or, set,
}
use toy_quant_v.Base.Maps.{lookup, insert, erase}
use toy_quant_v.Common.Types.{ExecType}
use toy_quant_v.Common.Float.{Float}
use toy_quant_v.Common.Fees.{min_commission_shortfall}
use toy_quant_v.Exchange.Order.{ExecutionReport, is_terminal, trade?, executed_quantity}
use toy_quant_v.App.Ledger.{OrderLedger, OrderAudit, OrderState, Quality, transition, cycles_since}

abbrev pub maker_owner : Bytes
maker_owner = bytes "MarketMaker"

unfoldable pub fill_size_bucket : ℕ → ℕ
fill_size_bucket quantity =
    if leb quantity 50
    then 0
    else if leb quantity 99
    then 1
    else if leb quantity 199
    then 2
    else if leb quantity 499
    then 3
    else if leb quantity 999
    then 4
    else 5

-- The state that a report moves its order to; a rest is `mark_resting`'s.
unfoldable pub next_state : ExecType → Option OrderState
next_state ExecType.trade = some OrderState.partially_filled
next_state ExecType.partial_fill = some OrderState.partially_filled
next_state ExecType.filled = some OrderState.filled
next_state ExecType.cancelled = some OrderState.cancelled
next_state ExecType.rejected = some OrderState.rejected
next_state ExecType.resting = none

abbrev pub cancelled? : ExecType → Bool
cancelled? ExecType.cancelled = true
cancelled? ExecType.trade = false
cancelled? ExecType.partial_fill = false
cancelled? ExecType.filled = false
cancelled? ExecType.resting = false
cancelled? ExecType.rejected = false

unfoldable pub remove_key : ℕ → List ℕ → List ℕ
remove_key k [] = []
remove_key k (j ∷ js) = let rest = remove_key k js in if j == k then rest else j ∷ rest

module _ {F : Type 0} where
  -- A terminal report ends the quote's lifetime and its pending cancel.
  unfoldable pub end_quote :
      ExecutionReport F → ℕ → OrderLedger F → Quality F → OrderLedger F × Quality F
  end_quote r cycle l q =
      let uncancelled = record l {
        pending_cancel_orders = remove_key r.order_id l.pending_cancel_orders;
      } in
      if not (is_terminal r.exec_type)
      then (l, q)
      else elim (lookup r.order_id l.order_start_cycles) [
        | none ↦ (uncancelled, q)
        | some start ↦ (
          record uncancelled { order_start_cycles = erase r.order_id l.order_start_cycles },
          record q {
            total_quote_lifetime = add64 q.total_quote_lifetime (cycles_since start cycle);
            max_quote_lifetime = max q.max_quote_lifetime (cycles_since start cycle);
          },
        )
      ]

  -- The transition that the report asks for.
  unfoldable pub advance : ExecutionReport F → OrderAudit F → Quality F → OrderAudit F × Quality F
  advance r a q = elim (next_state r.exec_type) [
    | none ↦ (a, q)
    | some next ↦
        let (state, q', moved) = transition a.state next q in (record a { state = state }, q')
  ]

  unfoldable pub count_ending : ExecutionReport F → ℕ → OrderAudit F → Quality F → Quality F
  count_ending r cycle a q =
      let q1 = record q {
        total_order_lifetime_cycles =
            add64 q.total_order_lifetime_cycles (cycles_since a.start_cycle cycle);
      } in
      elim r.exec_type [
        | ExecType.cancelled ↦
            let q2 = record q1 { audited_cancelled_orders = add64 q1.audited_cancelled_orders 1 } in
            if a.filled
            then record q2 { cancelled_after_fill_orders = add64 q2.cancelled_after_fill_orders 1 }
            else record q2 {
              cancelled_before_fill_orders = add64 q2.cancelled_before_fill_orders 1;
            }
        | ExecType.filled ↦ record q1 { audited_filled_orders = add64 q1.audited_filled_orders 1 }
        | ExecType.rejected ↦ record q1 {
          audited_rejected_orders = add64 q1.audited_rejected_orders 1;
        }
        | ExecType.trade ↦ q1
        | ExecType.partial_fill ↦ q1
        | ExecType.resting ↦ q1
      ]

  unfoldable pub note_wait : ExecutionReport F → ℕ → OrderAudit F → OrderLedger F → OrderLedger F
  note_wait r cycle a l =
      let lifetime = cycles_since a.start_cycle cycle in
      if a.filled && ltb l.longest_wait_filled_cycles lifetime
      then record l {
        longest_wait_filled_cycles = lifetime;
        longest_wait_filled_order_id = r.order_id;
      }
      else l

  -- A trade of an order that rests shows that the queue before it is gone.
  unfoldable pub front_of_queue : ExecutionReport F → OrderLedger F → OrderLedger F
  front_of_queue r l =
      let named = record l {
        first_fill_order_id =
            if l.first_fill_order_id == 0 then r.order_id else l.first_fill_order_id;
      } in
      if trade? r.exec_type && bytes_eq r.owner maker_owner
      then elim (lookup r.order_id l.order_audit) [
        | none ↦ named
        | some a ↦
            if a.profiling
            then record named {
              order_audit =
                  insert r.order_id (record a { min_queue_ahead = 0; queue_at_end = 0 })
                    l.order_audit;
            }
            else named
      ]
      else l

module _ {F : Type 0} ⦃fl : Float F⦄ where
  -- What a trade adds to the order's fill and to its commission.
  unfoldable pub add_fill : ExecutionReport F → F → F → OrderAudit F → OrderAudit F
  add_fill r quantity_scale commission_per_unit a =
      let executed = fl.of_u64 (executed_quantity r) in
      let units =
        if fl.f_lt fl.f_zero quantity_scale then fl.f_div executed quantity_scale else executed in
      if trade? r.exec_type
      then record a {
        filled = true;
        filled_quantity = add64 a.filled_quantity (executed_quantity r);
        commission =
            if fl.f_lt fl.f_zero commission_per_unit
            then fl.f_add a.commission (fl.f_mul units commission_per_unit)
            else a.commission;
      }
      else a

  unfoldable pub close_profile : OrderAudit F → OrderLedger F → OrderLedger F
  close_profile a l =
      let at_rest = fl.of_u64 a.queue_at_rest in
      if a.profiling && ltb 0 a.queue_at_rest
      then record l {
        queue_min_fractions =
            l.queue_min_fractions ++ fl.f_div (fl.of_u64 a.min_queue_ahead) at_rest ∷ [];
        queue_end_fractions =
            l.queue_end_fractions ++ fl.f_div (fl.of_u64 a.queue_at_end) at_rest ∷ [];
        queue_profile_orders = add64 l.queue_profile_orders 1;
        queue_zero_orders =
            if a.min_queue_ahead == 0 then add64 l.queue_zero_orders 1 else l.queue_zero_orders;
      }
      else l

  -- The commission that a filled order still owes when it ends.
  unfoldable pub shortfall_of : F → OrderAudit F → F
  shortfall_of min_commission a =
      let shortfall = min_commission_shortfall min_commission a.commission in
      if a.filled && fl.f_lt fl.f_zero shortfall then shortfall else fl.f_zero

  unfoldable pub count_fill : F → OrderAudit F → Quality F → Quality F
  count_fill min_commission a q =
      let bucket = fill_size_bucket a.filled_quantity in
      let counts = q.filled_order_count_by_size in
      let sums = q.filled_order_quantity_by_size in
      let counted = record q {
        orders_that_filled = add64 q.orders_that_filled 1;
        filled_order_count_by_size = set counts bucket (add64 (get_or counts bucket 0) 1);
        filled_order_quantity_by_size =
            set sums bucket (add64 (get_or sums bucket 0) a.filled_quantity);
      } in
      let shortfall = min_commission_shortfall min_commission a.commission in
      if not a.filled
      then q
      else if fl.f_lt fl.f_zero shortfall
      then record counted {
        min_commission_orders = add64 q.min_commission_orders 1;
        min_commission_paid = fl.f_add q.min_commission_paid shortfall;
      }
      else counted

  -- The report of an order whose audit is open.
  unfoldable pub audit_report :
      ExecutionReport F
      → ℕ
      → F
      → F
      → F
      → OrderAudit F
      → OrderLedger F
      → Quality F
      → OrderLedger F × Quality F × F
  audit_report r cycle scale per_unit min_commission a l q =
      let (a1, q1) = advance r a q in
      let a2 = add_fill r scale per_unit a1 in
      let open' = record l { order_audit = insert r.order_id a2 l.order_audit } in
      let closed = close_profile a2 (note_wait r cycle a2 l) in
      if is_terminal r.exec_type
      then (
        record closed { order_audit = erase r.order_id l.order_audit },
        count_fill min_commission a2 (count_ending r cycle a2 q1),
        shortfall_of min_commission a2,
      )
      else (open', q1, fl.f_zero)

  -- An order of ours without an open audit is an orphan.
  unfoldable pub count_orphan : ExecutionReport F → Quality F → Quality F
  count_orphan r q =
      if bytes_eq r.owner maker_owner
      then record q { orphan_order_reports = add64 q.orphan_order_reports 1 }
      else q

  unfoldable pub on_report :
      ExecutionReport F → ℕ → F → F → F → OrderLedger F → Quality F → OrderLedger F × Quality F × F
  on_report r cycle scale per_unit min_commission l q =
      let (l1, q1) = end_quote r cycle l q in
      let (l2, q2, owed) : OrderLedger F × Quality F × F = elim (lookup r.order_id l1.order_audit) [
        | none ↦ (l1, count_orphan r q1, fl.f_zero)
        | some a ↦ audit_report r cycle scale per_unit min_commission a l1 q1
      ] in
      (front_of_queue r l2, q2, owed)
