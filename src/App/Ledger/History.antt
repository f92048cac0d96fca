-- ===== src/App/Ledger/History.antt =====
-- The ledgers that src/app/pipeline.cpp can come to: the calls of `OrderLedger`'s operations in any
-- order, an id being opened only where its order has no open audit and forgotten only where it has one.
use toy_quant_v.Base.{ℕ, suc, ◌≡◌, [], ◌∷◌, none, some}
use toy_quant_v.Base.Maps.{lookup}
use toy_quant_v.Common.Float.{Float}
use toy_quant_v.Exchange.Order.{ExecutionReport}
use toy_quant_v.App.Ledger.{
  OrderLedger, OrderAudit, Quality, QueueAhead, open_order, forget_order, mark_resting,
  begin_cancel, sample_resting,
}
use toy_quant_v.App.Ledger.Report.{on_report}

module _ {F : Type 0} ⦃fl : Float F⦄ where
  abbrev pub new_ledger : OrderLedger F
  new_ledger = record {
    order_audit = [];
    order_start_cycles = [];
    pending_cancel_orders = [];
    queue_min_fractions = [];
    queue_end_fractions = [];
    queue_profile_orders = 0;
    queue_zero_orders = 0;
    first_fill_order_id = 0;
    longest_wait_filled_order_id = 0;
    longest_wait_filled_cycles = 0;
  }

  abbrev pub new_quality : Quality F
  new_quality = record {
    total_quote_lifetime = 0;
    max_quote_lifetime = 0;
    audited_orders = 0;
    audited_filled_orders = 0;
    audited_cancelled_orders = 0;
    audited_rejected_orders = 0;
    invalid_order_transitions = 0;
    orphan_order_reports = 0;
    cancelled_after_fill_orders = 0;
    cancelled_before_fill_orders = 0;
    orders_that_filled = 0;
    filled_order_count_by_size = 0 ∷ 0 ∷ 0 ∷ 0 ∷ 0 ∷ 0 ∷ [];
    filled_order_quantity_by_size = 0 ∷ 0 ∷ 0 ∷ 0 ∷ 0 ∷ 0 ∷ [];
    min_commission_orders = 0;
    min_commission_paid = fl.f_zero;
    total_order_lifetime_cycles = 0;
  }

-- A ledger that such calls lead to, its metrics, and how many open orders were forgotten.
pub data Run {F : Type 0} ⦃fl : Float F⦄ : OrderLedger F → Quality F → ℕ → Type 0 where
  start : Run new_ledger new_quality 0
  opened :
      {l : OrderLedger F} {q : Quality F} {n : ℕ} (id cycle : ℕ)
      → lookup id l.order_audit ≡ none
      → Run l q n
      → Run (open_order id cycle l q).0 (open_order id cycle l q).1 n
  forgot :
      {l : OrderLedger F} {q : Quality F} {n : ℕ} (id : ℕ) (a : OrderAudit F)
      → lookup id l.order_audit ≡ some a
      → Run l q n
      → Run (forget_order id l) q (suc n)
  rested :
      {l : OrderLedger F} {q : Quality F} {n : ℕ} (queue : QueueAhead F) (r : ExecutionReport F)
      → Run l q n
      → Run (mark_resting queue r l q).0 (mark_resting queue r l q).1 n
  cancel_begun :
      {l : OrderLedger F} {q : Quality F} {n : ℕ} (queue : QueueAhead F) (id : ℕ)
      → Run l q n
      → Run (begin_cancel queue id l).0 q n
  sampled :
      {l : OrderLedger F} {q : Quality F} {n : ℕ} (queue : QueueAhead F)
      → Run l q n
      → Run (sample_resting queue l) q n
  reported :
      {l : OrderLedger F} {q : Quality F} {n : ℕ} (r : ExecutionReport F) (cycle : ℕ)
      (scale per_unit min_commission : F)
      → Run l q n
      → Run
          (on_report r cycle scale per_unit min_commission l q).0
          (on_report r cycle scale per_unit min_commission l q).1
          n
