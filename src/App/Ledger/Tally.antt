-- ===== src/App/Ledger/Tally.antt =====
-- The counts of `ExecutionQualityMetrics` against the audits of src/app/order_ledger.cpp.
use toy_quant_v.Base.{
  ℕ, suc, ◌+◌, ◌%◌, ◌≡◌, refl, sym, ap, ◌∙◌, subst, true, List, [], ◌∷◌, none, some, arith,
  Bool-cases, Option-cases, inl, inr, length, add64, u64_mod,
}
use toy_quant_v.Base.Maps.{lookup, insert, erase}
use toy_quant_v.Base.Maps.Unique.{Unique, insert-Unique, erase-Unique, length-insert, length-erase}
use toy_quant_v.Common.Float.{Float}
use toy_quant_v.Exchange.Order.{ExecutionReport, is_terminal}
use toy_quant_v.App.Ledger.{
  OrderLedger, OrderAudit, OrderState, Quality, QueueAhead, allowed, transition, open_order,
  forget_order, mark_resting, begin_cancel, sample_all, sample_resting, profiled,
}
use toy_quant_v.App.Ledger.Report.{
  on_report, audit_report, end_quote, advance, add_fill, front_of_queue, close_profile, note_wait,
  count_ending, count_fill, count_orphan,
}
use toy_quant_v.App.Ledger.History.{
  Run, start, opened, forgot, rested, cancel_begun, sampled, reported,
}

module _ {F : Type 0} where
  abbrev pub ended_orders : Quality F → ℕ
  ended_orders q = q.audited_filled_orders + q.audited_cancelled_orders + q.audited_rejected_orders

  -- The orders that ended, those whose audit is open and those forgotten are those that were opened,
  -- in the 64 bits of the counters.
  abbrev pub Balanced : List (ℕ × OrderAudit F) → Quality F → ℕ → Type 0
  Balanced m q n =
      Unique m × ((ended_orders q + length m + n) % u64_mod ≡ q.audited_orders % u64_mod)

  length-insert_held :
      (id : ℕ) (a b : OrderAudit F) (m : List (ℕ × OrderAudit F))
      → lookup id m ≡ some b
      → length (insert id a m) ≡ length m
  length-insert_held id a b m h = ground (arith, length-insert id a m)

  insert-Balanced :
      (id : ℕ) (a b : OrderAudit F) (m : List (ℕ × OrderAudit F)) (q : Quality F) (n : ℕ)
      → lookup id m ≡ some b
      → Balanced m q n
      → Balanced (insert id a m) q n
  insert-Balanced id a b m q n h (u, s) = (
    insert-Unique id a m u,
    ap (λ k. (ended_orders q + k + n) % u64_mod) (length-insert_held id a b m h) ∙ s,
  )

  lookup-sample_all :
      (queue : QueueAhead F) (id : ℕ) (m : List (ℕ × OrderAudit F))
      → lookup id m ≡ none
      → lookup id (sample_all queue m) ≡ none
  unfolding sample_all lookup
  lookup-sample_all queue id [] h = refl
  lookup-sample_all queue id ((j, a) ∷ m) h = ground (arith, lookup-sample_all queue id m)

  sample_all-Unique :
      (queue : QueueAhead F) (m : List (ℕ × OrderAudit F)) → Unique m → Unique (sample_all queue m)
  unfolding sample_all
  sample_all-Unique queue [] u = tt
  sample_all-Unique queue ((j, a) ∷ m) u =
      (lookup-sample_all queue j m u.0, sample_all-Unique queue m u.1)

  length-sample_all :
      (queue : QueueAhead F) (m : List (ℕ × OrderAudit F)) → length (sample_all queue m) ≡ length m
  unfolding sample_all
  length-sample_all queue [] = refl
  length-sample_all queue ((j, a) ∷ m) = ground (arith, length-sample_all queue m)

  -- The parts that move none of the counts.
  abbrev SameCounts : Quality F → Quality F → Type 0
  SameCounts q' q = (q'.audited_orders ≡ q.audited_orders) × (ended_orders q' ≡ ended_orders q)

  counts-Balanced :
      (m : List (ℕ × OrderAudit F)) (q' q : Quality F) (n : ℕ)
      → SameCounts q' q
      → Balanced m q n
      → Balanced m q' n
  counts-Balanced m q' q n (all, ended) (u, s) = (u, ground (arith, s))

  mark_resting-Balanced :
      (queue : QueueAhead F) (r : ExecutionReport F) (l : OrderLedger F) (q : Quality F) (n : ℕ)
      → Balanced l.order_audit q n
      → Balanced (mark_resting queue r l q).0.order_audit (mark_resting queue r l q).1 n
  unfolding mark_resting transition
  mark_resting-Balanced queue r l q n b = elim (Option-cases (lookup r.order_id l.order_audit)) [
    | inl gone ↦ ground (arith, b)
    | inr (a, is) ↦ elim (Bool-cases (allowed a.state OrderState.resting)) [
      | inl moves ↦ ground (
        arith,
        insert-Balanced r.order_id (profiled queue r (record a { state = OrderState.resting })) a
            l.order_audit q n is b,
      )
      | inr stays ↦ ground (arith, b)
    ]
  ]

  begin_cancel-Balanced :
      (queue : QueueAhead F) (id : ℕ) (l : OrderLedger F) (q : Quality F) (n : ℕ)
      → Balanced l.order_audit q n
      → Balanced (begin_cancel queue id l).0.order_audit q n
  unfolding begin_cancel
  begin_cancel-Balanced queue id l q n b = elim (Option-cases (lookup id l.order_audit)) [
    | inl gone ↦ ground (arith, b)
    | inr (a, is) ↦ ground (
      arith,
      insert-Balanced id (record a { queue_at_end = queue a.symbol a.side a.price }) a l.order_audit
          q n is b,
      b,
    )
  ]

  forget_order-Balanced :
      (id : ℕ) (a : OrderAudit F) (l : OrderLedger F) (q : Quality F) (n : ℕ)
      → lookup id l.order_audit ≡ some a
      → Balanced l.order_audit q n
      → Balanced (forget_order id l).order_audit q (suc n)
  unfolding forget_order
  forget_order-Balanced id a l q n is (u, s) =
      (erase-Unique id l.order_audit u, ground (arith, length-erase id l.order_audit u, s))

  advance-SameCounts :
      (r : ExecutionReport F) (a : OrderAudit F) (q : Quality F) → SameCounts (advance r a q).1 q
  unfolding advance transition
  advance-SameCounts r a q = ground arith

  opened-Balanced :
      (id : ℕ) (a : OrderAudit F) (m : List (ℕ × OrderAudit F)) (q : Quality F) (n : ℕ)
      → lookup id m ≡ none
      → Balanced m q n
      → Balanced (insert id a m) (record q { audited_orders = add64 q.audited_orders 1 }) n
  unfolding add64
  opened-Balanced id a m q n fresh (u, s) =
      (insert-Unique id a m u, ground (arith, length-insert id a m, s))

module _ {F : Type 0} ⦃fl : Float F⦄ where
  open_order-Balanced :
      (id cycle : ℕ) (l : OrderLedger F) (q : Quality F) (n : ℕ)
      → lookup id l.order_audit ≡ none
      → Balanced l.order_audit q n
      → Balanced (open_order id cycle l q).0.order_audit (open_order id cycle l q).1 n
  unfolding open_order
  open_order-Balanced id cycle l q n fresh b = opened-Balanced id _ l.order_audit q n fresh b

  end_quote-SameCounts :
      (r : ExecutionReport F) (cycle : ℕ) (l : OrderLedger F) (q : Quality F)
      → ((end_quote r cycle l q).0.order_audit ≡ l.order_audit)
        × SameCounts (end_quote r cycle l q).1 q
  unfolding end_quote
  end_quote-SameCounts r cycle l q = ground arith

  count_orphan-SameCounts :
      (r : ExecutionReport F) (q : Quality F) → SameCounts (count_orphan r q) q
  unfolding count_orphan
  count_orphan-SameCounts r q = ground arith

  count_fill-SameCounts :
      (min_commission : F) (a : OrderAudit F) (q : Quality F)
      → SameCounts (count_fill min_commission a q) q
  unfolding count_fill
  count_fill-SameCounts min_commission a q = ground arith

  -- An ending counts its order once.
  count_ending-one :
      (r : ExecutionReport F) (cycle : ℕ) (a : OrderAudit F) (q : Quality F)
      → is_terminal r.exec_type ≡ true
      → ((count_ending r cycle a q).audited_orders ≡ q.audited_orders)
        × (ended_orders (count_ending r cycle a q) % u64_mod ≡ (ended_orders q + 1) % u64_mod)
  unfolding count_ending is_terminal add64
  count_ending-one r cycle a q h = ground arith

  front_of_queue-Balanced :
      (r : ExecutionReport F) (l : OrderLedger F) (q : Quality F) (n : ℕ)
      → Balanced l.order_audit q n
      → Balanced (front_of_queue r l).order_audit q n
  unfolding front_of_queue
  front_of_queue-Balanced r l q n b = elim (Option-cases (lookup r.order_id l.order_audit)) [
    | inl gone ↦ ground (arith, b)
    | inr (a, is) ↦ ground (
      arith,
      insert-Balanced r.order_id (record a { min_queue_ahead = 0; queue_at_end = 0 }) a
          l.order_audit q n is b,
      b,
    )
  ]

  end-Balanced :
      (r : ExecutionReport F) (cycle : ℕ) (min_commission : F) (a b : OrderAudit F)
      (m : List (ℕ × OrderAudit F)) (q : Quality F) (n : ℕ)
      → is_terminal r.exec_type ≡ true
      → lookup r.order_id m ≡ some a
      → Balanced m q n
      → Balanced (erase r.order_id m) (count_fill min_commission b (count_ending r cycle b q)) n
  end-Balanced r cycle min_commission a b m q n h is (u, s) =
      let (all, one) = count_ending-one r cycle b q h in
      let (all', same) = count_fill-SameCounts min_commission b (count_ending r cycle b q) in
      (
        erase-Unique r.order_id m u,
        ground (arith, length-erase r.order_id m u, all, one, all', same, s),
      )

  audit_report-Balanced :
      (r : ExecutionReport F) (cycle : ℕ) (scale per_unit min_commission : F) (a : OrderAudit F)
      (l : OrderLedger F) (q : Quality F) (n : ℕ)
      → lookup r.order_id l.order_audit ≡ some a
      → Balanced l.order_audit q n
      → let (l', q', owed) = audit_report r cycle scale per_unit min_commission a l q in
        Balanced l'.order_audit q' n
  unfolding audit_report note_wait close_profile
  audit_report-Balanced r cycle scale per_unit min_commission a l q n is b =
      let (a1, q1) = advance r a q in
      let a2 = add_fill r scale per_unit a1 in
      let b1 = counts-Balanced l.order_audit q1 q n (advance-SameCounts r a q) b in
      elim (Bool-cases (is_terminal r.exec_type)) [
        | inl ends ↦
            ground (arith, end-Balanced r cycle min_commission a a2 l.order_audit q1 n ends is b1)
        | inr goes_on ↦ ground (arith, insert-Balanced r.order_id a2 a l.order_audit q1 n is b1)
      ]

  on_report-Balanced :
      (r : ExecutionReport F) (cycle : ℕ) (scale per_unit min_commission : F) (l : OrderLedger F)
      (q : Quality F) (n : ℕ)
      → Balanced l.order_audit q n
      → let (l', q', owed) = on_report r cycle scale per_unit min_commission l q in
        Balanced l'.order_audit q' n
  unfolding on_report
  on_report-Balanced r cycle scale per_unit min_commission l q n b =
      let (l1, q1) = end_quote r cycle l q in
      let (same, counts) = end_quote-SameCounts r cycle l q in
      let b1 =
        subst (λ m. Balanced m q1 n) (sym same) (counts-Balanced l.order_audit q1 q n counts b) in
      elim (Option-cases (lookup r.order_id l1.order_audit)) [
        | inl gone ↦ ground (
          arith,
          front_of_queue-Balanced r l1 (count_orphan r q1) n (
              counts-Balanced l1.order_audit (count_orphan r q1) q1 n (count_orphan-SameCounts r q1)
                b1),
        )
        | inr (a, is) ↦
            let (l2, q2, owed) = audit_report r cycle scale per_unit min_commission a l1 q1 in
            ground (
              arith,
              front_of_queue-Balanced r l2 q2 n
                  (audit_report-Balanced r cycle scale per_unit min_commission a l1 q1 n is b1),
            )
      ]

  -- After calls of the ledger's operations in any order, in which `open_order` is called only with an id
  -- that has no open audit and `forget_order` only with one that has, each order has one open audit at
  -- most, and the orders counted as filled, cancelled and rejected, those with an open audit and those
  -- forgotten make up the orders that were opened, in the 64 bits of the counters.
  pub Run-Balanced :
      (l : OrderLedger F) (q : Quality F) (n : ℕ) → Run l q n → Balanced l.order_audit q n
  unfolding forget_order sample_resting
  Run-Balanced _ _ _ start = (tt, refl)
  Run-Balanced _ _ _ (opened {l} {q} {n} id cycle fresh run) =
      open_order-Balanced id cycle l q n fresh (Run-Balanced l q n run)
  Run-Balanced _ _ _ (forgot {l} {q} {n} id a is run) =
      forget_order-Balanced id a l q n is (Run-Balanced l q n run)
  Run-Balanced _ _ _ (rested {l} {q} {n} queue r run) =
      mark_resting-Balanced queue r l q n (Run-Balanced l q n run)
  Run-Balanced _ _ _ (cancel_begun {l} {q} {n} queue id run) =
      begin_cancel-Balanced queue id l q n (Run-Balanced l q n run)
  Run-Balanced _ _ _ (sampled {l} {q} {n} queue run) =
      let (u, s) = Run-Balanced l q n run in
      (
        sample_all-Unique queue l.order_audit u,
        ap (λ k. (ended_orders q + k + n) % u64_mod) (length-sample_all queue l.order_audit) ∙ s,
      )
  Run-Balanced _ _ _ (reported {l} {q} {n} r cycle scale per_unit min_commission run) =
      on_report-Balanced r cycle scale per_unit min_commission l q n (Run-Balanced l q n run)
