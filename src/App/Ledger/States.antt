-- ===== src/App/Ledger/States.antt =====
-- The states of the audits of src/app/order_ledger.cpp.
use toy_quant_v.Base.{
  ℕ, ◌≡◌, ◌≢◌, add64, refl, sym, subst, true, false, none, some, arith, Option-cases, inl, inr,
}
use toy_quant_v.Base.Maps.{lookup, lookup-insert, lookup-erase}
use toy_quant_v.Common.Float.{Float}
use toy_quant_v.Exchange.Order.{ExecutionReport, is_terminal}
use toy_quant_v.App.Ledger.{
  OrderLedger, OrderAudit, OrderState, Quality, QueueAhead, allowed, transition, open_order,
  forget_order, mark_resting, sample_resting, order_state, profiled,
}
use toy_quant_v.App.Ledger.Report.{
  on_report, audit_report, end_quote, advance, add_fill, front_of_queue, close_profile, note_wait,
  count_ending, count_fill, count_orphan,
}
use toy_quant_v.App.Ledger.History.{
  Run, start, opened, forgot, rested, cancel_begun, sampled, reported,
}
use toy_quant_v.App.Ledger.Open.{
  AllOpen, lookup-AllOpen, insert-AllOpen, erase-AllOpen, sample_all-AllOpen, mark_resting-AllOpen,
  begin_cancel-AllOpen, advance-open,
}

allowed-pending : allowed OrderState.pending OrderState.resting ≡ true
unfolding allowed
allowed-pending = refl

only_pending : (s : OrderState) → s ≢ OrderState.pending → allowed s OrderState.resting ≡ false
unfolding allowed
only_pending OrderState.pending h = absurd (h refl)
only_pending OrderState.resting h = refl
only_pending OrderState.partially_filled h = refl
only_pending OrderState.filled h = refl
only_pending OrderState.cancelled h = refl
only_pending OrderState.rejected h = refl

module _ {F : Type 0} ⦃fl : Float F⦄ where
  -- The parts of a report's handling that leave the audits alone, and the count of the bad transitions.
  end_quote-order_audit :
      (r : ExecutionReport F) (cycle : ℕ) (l : OrderLedger F) (q : Quality F)
      → ((end_quote r cycle l q).0.order_audit ≡ l.order_audit)
        × ((end_quote r cycle l q).1.invalid_order_transitions ≡ q.invalid_order_transitions)
  unfolding end_quote
  end_quote-order_audit r cycle l q = ground arith

  counts-invalid :
      (r : ExecutionReport F) (cycle : ℕ) (min_commission : F) (a : OrderAudit F) (q : Quality F)
      → (count_fill min_commission a (count_ending r cycle a q)).invalid_order_transitions
        ≡ q.invalid_order_transitions
  unfolding count_fill count_ending
  counts-invalid r cycle min_commission a q = ground arith

  count_orphan-invalid :
      (r : ExecutionReport F) (q : Quality F)
      → (count_orphan r q).invalid_order_transitions ≡ q.invalid_order_transitions
  unfolding count_orphan
  count_orphan-invalid r q = ground arith

  state-add_fill :
      (r : ExecutionReport F) (scale per_unit : F) (a : OrderAudit F)
      → (add_fill r scale per_unit a).state ≡ a.state
  unfolding add_fill
  state-add_fill r scale per_unit a = ground arith

  front_of_queue-AllOpen :
      (r : ExecutionReport F) (l : OrderLedger F)
      → AllOpen l.order_audit
      → AllOpen (front_of_queue r l).order_audit
  unfolding front_of_queue
  front_of_queue-AllOpen r l o = elim (Option-cases (lookup r.order_id l.order_audit)) [
    | inl gone ↦ ground arith
    | inr (a, is) ↦ ground (
      arith,
      insert-AllOpen r.order_id (record a { min_queue_ahead = 0; queue_at_end = 0 }) l.order_audit
          (lookup-AllOpen r.order_id l.order_audit a o is) o,
    )
  ]

  -- What the handling of a report promises of the audits and of the count of bad transitions.
  abbrev Valid :
      ExecutionReport F → OrderLedger F → Quality F → OrderLedger F × Quality F × F → Type 0
  Valid r l q (l', q', owed) =
      AllOpen l'.order_audit
      × (q'.invalid_order_transitions ≡ q.invalid_order_transitions)
      × (is_terminal r.exec_type ≡ true → lookup r.order_id l'.order_audit ≡ none)
      × (lookup r.order_id l.order_audit ≡ none → lookup r.order_id l'.order_audit ≡ none)

  audit_report-Valid :
      (r : ExecutionReport F) (cycle : ℕ) (scale per_unit min_commission : F) (a : OrderAudit F)
      (l : OrderLedger F) (q : Quality F)
      → AllOpen l.order_audit
      → lookup r.order_id l.order_audit ≡ some a
      → Valid r l q (audit_report r cycle scale per_unit min_commission a l q)
  unfolding audit_report note_wait close_profile
  audit_report-Valid r cycle scale per_unit min_commission a l q o is =
      let open' = lookup-AllOpen r.order_id l.order_audit a o is in
      let moved = advance-open r a q open' in
      let a2 = add_fill r scale per_unit (advance r a q).0 in
      ground (
        arith,
        moved.0,
        moved.1,
        state-add_fill r scale per_unit (advance r a q).0,
        counts-invalid r cycle min_commission a2 (advance r a q).1,
        insert-AllOpen r.order_id a2 l.order_audit,
        erase-AllOpen r.order_id l.order_audit o,
        lookup-erase r.order_id r.order_id l.order_audit,
      )

  front_of_queue-none :
      (r : ExecutionReport F) (l : OrderLedger F)
      → lookup r.order_id l.order_audit ≡ none
      → lookup r.order_id (front_of_queue r l).order_audit ≡ none
  unfolding front_of_queue
  front_of_queue-none r l h = ground arith

  on_report-Valid :
      (r : ExecutionReport F) (cycle : ℕ) (scale per_unit min_commission : F) (l : OrderLedger F)
      (q : Quality F)
      → AllOpen l.order_audit
      → Valid r l q (on_report r cycle scale per_unit min_commission l q)
  unfolding on_report
  on_report-Valid r cycle scale per_unit min_commission l q o =
      let (l1, q1) = end_quote r cycle l q in
      let (same, kept) = end_quote-order_audit r cycle l q in
      let o1 = subst (λ m. AllOpen m) (sym same) o in
      elim (Option-cases (lookup r.order_id l1.order_audit)) [
        | inl gone ↦ ground (
          arith,
          front_of_queue-AllOpen r l1 o1,
          front_of_queue-none r l1 gone,
          count_orphan-invalid r q1,
        )
        | inr (a, is) ↦
            let (l2, q2, owed) = audit_report r cycle scale per_unit min_commission a l1 q1 in
            let (o2, valid, ended, absent) =
              audit_report-Valid r cycle scale per_unit min_commission a l1 q1 o1 is in
            ground (arith, front_of_queue-AllOpen r l2 o2, front_of_queue-none r l2)
      ]

  Run-AllOpen : (l : OrderLedger F) (q : Quality F) (n : ℕ) → Run l q n → AllOpen l.order_audit
  unfolding open_order forget_order sample_resting
  Run-AllOpen _ _ _ start = tt
  Run-AllOpen _ _ _ (opened {l} {q} {n} id cycle fresh run) =
      insert-AllOpen id _ l.order_audit refl (Run-AllOpen l q n run)
  Run-AllOpen _ _ _ (forgot {l} {q} {n} id a is run) =
      erase-AllOpen id l.order_audit (Run-AllOpen l q n run)
  Run-AllOpen _ _ _ (rested {l} {q} {n} queue r run) =
      mark_resting-AllOpen queue r l q (Run-AllOpen l q n run)
  Run-AllOpen _ _ _ (cancel_begun {l} {q} {n} queue id run) =
      begin_cancel-AllOpen queue id l (Run-AllOpen l q n run)
  Run-AllOpen _ _ _ (sampled {l} {q} {n} queue run) =
      sample_all-AllOpen queue l.order_audit (Run-AllOpen l q n run)
  Run-AllOpen _ _ _ (reported {l} {q} {n} r cycle scale per_unit min_commission run) =
      (on_report-Valid r cycle scale per_unit min_commission l q (Run-AllOpen l q n run)).0

  -- A report of rest for no audit, for a pending one, and for one that is past that.
  abbrev pub RestCounted : QueueAhead F → ExecutionReport F → OrderLedger F → Quality F → Type 0
  RestCounted queue r l q =
      let (l', q') = mark_resting queue r l q in
      (order_state r.order_id l ≡ none → (l' ≡ l) × (q' ≡ q))
      × (order_state r.order_id l ≡ some OrderState.pending
          → (order_state r.order_id l' ≡ some OrderState.resting) × (q' ≡ q))
      × ((s : OrderState)
          → order_state r.order_id l ≡ some s
          → s ≢ OrderState.pending
          → (l' ≡ l)
            × (q' ≡ record q { invalid_order_transitions = add64 q.invalid_order_transitions 1 }))

  mark_resting-RestCounted :
      (queue : QueueAhead F) (r : ExecutionReport F) (l : OrderLedger F) (q : Quality F)
      → RestCounted queue r l q
  unfolding mark_resting order_state transition
  mark_resting-RestCounted queue r l q = elim (Option-cases (lookup r.order_id l.order_audit)) [
    | inl gone ↦ ground (arith, gone)
    | inr (a, is) ↦ (
      λ h. ground (arith, is),
      λ h. ground (
        arith,
        is,
        allowed-pending,
        lookup-insert r.order_id r.order_id
            (profiled queue r (record a { state = OrderState.resting })) l.order_audit,
      ),
      λ s h p. ground (arith, is, only_pending s p),
    )
  ]

  -- In a ledger that calls of its operations lead to, with an id opened only where it has no open audit and
  -- forgotten only where it has one, `on_report` leaves the count of the transitions that are not allowed; it
  -- closes the audit of a terminal report's order, and opens none for its order. `mark_resting` moves a
  -- pending order to resting and leaves the count; for an order with an audit in another state, as one with
  -- a fill, it adds one to the count, in 64 bits, and changes nothing else; for an order with no audit it
  -- changes nothing.
  pub on_report-transitions :
      (queue : QueueAhead F) (r : ExecutionReport F) (cycle : ℕ) (scale per_unit min_commission : F)
      (l : OrderLedger F) (q : Quality F) (n : ℕ)
      → Run l q n
      → let (l', q', owed) = on_report r cycle scale per_unit min_commission l q in
        (q'.invalid_order_transitions ≡ q.invalid_order_transitions)
        × (is_terminal r.exec_type ≡ true → order_state r.order_id l' ≡ none)
        × (order_state r.order_id l ≡ none → order_state r.order_id l' ≡ none)
        × RestCounted queue r l q
  unfolding order_state
  on_report-transitions queue r cycle scale per_unit min_commission l q n run =
      let (o, valid, ended, absent) =
        on_report-Valid r cycle scale per_unit min_commission l q (Run-AllOpen l q n run) in
      (
        valid,
        λ h. ground (arith, ended h),
        λ h. ground (arith, absent, h),
        mark_resting-RestCounted queue r l q,
      )
