-- ===== src/App/Ledger/Trace.antt =====
-- The queue trace of one order in src/app/order_ledger.cpp, with the rows of src/app/run_summary.h.
use toy_quant_v.Base.{
  ℕ, ◌≡◌, ◌≢◌, ◌⊎◌, inl, inr, Bool-cases, refl, sym, ap, ℤ, ◌-ℤ◌, to_i64, Bool, true, false, not,
  ◌||◌, List, [], ◌∷◌, ◌++◌, arith, ◌==◌, if◌then◌else◌, Bytes, bytes,
}
use toy_quant_v.Common.Types.{Side, ExecType}
use toy_quant_v.Exchange.Order.{ExecutionReport, is_terminal, executed_quantity}
use toy_quant_v.App.Orders.{StrategyOrder}
use toy_quant_v.App.Ledger.{QueueAhead, common_side}

pub record TraceRow (F : Type 0) : Type 0 where
  pub ts : ℕ
  pub event : Bytes
  pub side : Side
  pub price : F
  pub change : ℤ
  pub queue_ahead : ℕ

pub record QueueTrace (F : Type 0) : Type 0 where
  pub trace_order_id : ℕ
  pub trace_level_known : Bool
  pub trace_symbol : Bytes
  pub trace_side : Side
  pub trace_price : F
  pub trace_last_queue : ℕ
  pub trace_rows : List (TraceRow F)

abbrev pub event_name : ExecType → Bytes
event_name ExecType.trade = bytes "fill"
event_name ExecType.resting = bytes "rest"
event_name ExecType.cancelled = bytes "cancel"
event_name ExecType.filled = bytes "fully_filled"
event_name ExecType.rejected = bytes "rejected"
event_name ExecType.partial_fill = bytes "report"

module _ {F : Type 0} where
  abbrev pub submit_row : QueueAhead F → StrategyOrder F → ℕ → TraceRow F
  submit_row queue o ts = record {
    ts = ts;
    event = bytes "submit";
    side = o.side;
    price = o.price;
    change = to_i64 o.quantity;
    queue_ahead = queue o.symbol o.side o.price;
  }

  unfoldable pub trace_submit : QueueAhead F → StrategyOrder F → ℕ → QueueTrace F → QueueTrace F
  trace_submit queue o ts t = if not (o.order_id == t.trace_order_id) then t else record t {
    trace_symbol = o.symbol;
    trace_side = o.side;
    trace_price = o.price;
    trace_level_known = true;
    trace_last_queue = queue o.symbol o.side o.price;
    trace_rows = t.trace_rows ++ submit_row queue o ts ∷ [];
  }

  -- The queue at the traced level.
  abbrev pub queue_now : QueueAhead F → QueueTrace F → ℕ
  queue_now queue t = queue t.trace_symbol t.trace_side t.trace_price

  abbrev pub sample_row : QueueAhead F → Bytes → ℕ → QueueTrace F → TraceRow F
  sample_row queue event ts t = record {
    ts = ts;
    event = event;
    side = t.trace_side;
    price = t.trace_price;
    change = to_i64 t.trace_last_queue -ℤ to_i64 (queue_now queue t);
    queue_ahead = queue_now queue t;
  }

  unfoldable pub trace_sample : QueueAhead F → Bytes → ℕ → QueueTrace F → QueueTrace F
  trace_sample queue event ts t =
      if t.trace_order_id == 0 || not t.trace_level_known || queue_now queue t == t.trace_last_queue
      then t
      else record t {
        trace_rows = t.trace_rows ++ sample_row queue event ts t ∷ [];
        trace_last_queue = queue_now queue t;
      }

  abbrev pub report_row : QueueAhead F → ExecutionReport F → ℕ → QueueTrace F → TraceRow F
  report_row queue r current_ts t = record {
    ts = if current_ts == 0 then r.ts else current_ts;
    event = event_name r.exec_type;
    side = if t.trace_level_known then t.trace_side else common_side r.side;
    price = r.price;
    change = to_i64 (executed_quantity r);
    queue_ahead = if t.trace_level_known then queue_now queue t else 0;
  }

  unfoldable pub trace_report : QueueAhead F → ExecutionReport F → ℕ → QueueTrace F → QueueTrace F
  trace_report queue r current_ts t =
      if t.trace_order_id == 0 || not (r.order_id == t.trace_order_id) then t else record t {
        trace_rows = t.trace_rows ++ report_row queue r current_ts t ∷ [];
        trace_last_queue = if t.trace_level_known then queue_now queue t else 0;
        trace_level_known = if is_terminal r.exec_type then false else t.trace_level_known;
      }

-- A call of the trace.
pub data TraceCall (F : Type 0) : Type 0 where
  submit : QueueAhead F → StrategyOrder F → ℕ → TraceCall F
  sample : QueueAhead F → Bytes → ℕ → TraceCall F
  report : QueueAhead F → ExecutionReport F → ℕ → TraceCall F

module _ {F : Type 0} where
  abbrev pub trace_call : TraceCall F → QueueTrace F → QueueTrace F
  trace_call (submit queue o ts) t = trace_submit queue o ts t
  trace_call (sample queue event ts) t = trace_sample queue event ts t
  trace_call (report queue r ts) t = trace_report queue r ts t

  abbrev pub trace_calls : List (TraceCall F) → QueueTrace F → QueueTrace F
  trace_calls [] t = t
  trace_calls (c ∷ cs) t = trace_calls cs (trace_call c t)

  -- The queue of the last row, 0 where there is none.
  unfoldable pub last_queue : List (TraceRow F) → ℕ
  last_queue [] = 0
  last_queue (r ∷ []) = r.queue_ahead
  last_queue (r ∷ s ∷ rs) = last_queue (s ∷ rs)

  last_queue-append :
      (rows : List (TraceRow F)) (row : TraceRow F)
      → last_queue (rows ++ row ∷ []) ≡ row.queue_ahead
  unfolding last_queue
  last_queue-append [] row = refl
  last_queue-append (r ∷ []) row = refl
  last_queue-append (r ∷ s ∷ rs) row = last_queue-append (s ∷ rs) row

  -- The queue that the trace remembers is that of its last row.
  abbrev pub Remembers : QueueTrace F → Type 0
  Remembers t = last_queue t.trace_rows ≡ t.trace_last_queue

  trace_call-Remembers :
      (c : TraceCall F) (t : QueueTrace F) → Remembers t → Remembers (trace_call c t)
  unfolding trace_submit trace_sample trace_report
  trace_call-Remembers (submit queue o ts) t h =
      ground (arith, h, last_queue-append t.trace_rows (submit_row queue o ts))
  trace_call-Remembers (sample queue event ts) t h =
      ground (arith, h, last_queue-append t.trace_rows (sample_row queue event ts t))
  trace_call-Remembers (report queue r ts) t h =
      ground (arith, h, last_queue-append t.trace_rows (report_row queue r ts t))

  trace_calls-Remembers :
      (cs : List (TraceCall F)) (t : QueueTrace F) → Remembers t → Remembers (trace_calls cs t)
  trace_calls-Remembers [] t h = h
  trace_calls-Remembers (c ∷ cs) t h =
      trace_calls-Remembers cs (trace_call c t) (trace_call-Remembers c t h)

  -- After any calls, a sample of the queue leaves the trace as it is, or adds one row, whose queue is not
  -- that of the row before it and whose change is the difference of the two, the older less the newer.
  pub trace_sample-row :
      (cs : List (TraceCall F)) (t : QueueTrace F) (queue : QueueAhead F) (event : Bytes) (ts : ℕ)
      → Remembers t
      → let now = trace_calls cs t in
        (trace_sample queue event ts now ≡ now)
        ⊎ ((row : TraceRow F) × ((trace_sample queue event ts now).trace_rows
              ≡ now.trace_rows ++ row ∷ [])
            × (row.change ≡ to_i64 (last_queue now.trace_rows) -ℤ to_i64 row.queue_ahead)
            × (row.queue_ahead ≢ last_queue now.trace_rows))
  unfolding trace_sample
  trace_sample-row cs t queue event ts h =
      let now = trace_calls cs t in
      let kept = trace_calls-Remembers cs t h in
      elim (Bool-cases (
        now.trace_order_id == 0
        || not now.trace_level_known
        || queue_now queue now == now.trace_last_queue)) [
          | inl still ↦ inl (ground arith)
          | inr moved ↦ inr (
            sample_row queue event ts now,
            ground arith,
            ap (λ n. to_i64 n -ℤ to_i64 (queue_now queue now)) (sym kept),
            ground (arith, kept),
          )
        ]
