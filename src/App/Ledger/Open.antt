-- ===== src/App/Ledger/Open.antt =====
-- The audits of src/app/order_ledger.cpp, as those of orders that can still change.
use toy_quant_v.Base.{
  ℕ, ◌≡◌, refl, Bool, true, false, List, [], ◌∷◌, some, arith, Bool-cases, Option-cases, inl, inr,
}
use toy_quant_v.Base.Maps.{lookup, insert, erase}
use toy_quant_v.Exchange.Order.{ExecutionReport, is_terminal}
use toy_quant_v.App.Ledger.{
  OrderLedger, OrderAudit, OrderState, Quality, QueueAhead, allowed, transition, mark_resting,
  begin_cancel, sample_audit, sample_all, profiled,
}
use toy_quant_v.App.Ledger.Report.{advance, next_state}

-- An order in such a state can still change.
abbrev pub is_open : OrderState → Bool
is_open OrderState.pending = true
is_open OrderState.resting = true
is_open OrderState.partially_filled = true
is_open OrderState.filled = false
is_open OrderState.cancelled = false
is_open OrderState.rejected = false

module _ {F : Type 0} where
  abbrev pub AllOpen : List (ℕ × OrderAudit F) → Type 0
  AllOpen [] = Unit
  AllOpen ((id, a) ∷ rest) = (is_open a.state ≡ true) × AllOpen rest

  pub lookup-AllOpen :
      (id : ℕ) (m : List (ℕ × OrderAudit F)) (a : OrderAudit F)
      → AllOpen m
      → lookup id m ≡ some a
      → is_open a.state ≡ true
  unfolding lookup
  lookup-AllOpen id [] a o h = ground arith
  lookup-AllOpen id ((j, b) ∷ m) a o h = ground (arith, lookup-AllOpen id m a o.1)

  pub insert-AllOpen :
      (id : ℕ) (a : OrderAudit F) (m : List (ℕ × OrderAudit F))
      → is_open a.state ≡ true
      → AllOpen m
      → AllOpen (insert id a m)
  unfolding insert
  insert-AllOpen id a [] h o = (h, tt)
  insert-AllOpen id a ((j, b) ∷ m) h o = ground (arith, insert-AllOpen id a m h o.1)

  pub erase-AllOpen : (id : ℕ) (m : List (ℕ × OrderAudit F)) → AllOpen m → AllOpen (erase id m)
  unfolding erase
  erase-AllOpen id [] o = tt
  erase-AllOpen id ((j, b) ∷ m) o = ground (arith, erase-AllOpen id m o.1)

  pub sample_all-AllOpen :
      (queue : QueueAhead F) (m : List (ℕ × OrderAudit F))
      → AllOpen m
      → AllOpen (sample_all queue m)
  unfolding sample_all sample_audit
  sample_all-AllOpen queue [] o = tt
  sample_all-AllOpen queue ((j, b) ∷ m) o = ground (arith, sample_all-AllOpen queue m o.1)

  pub mark_resting-AllOpen :
      (queue : QueueAhead F) (r : ExecutionReport F) (l : OrderLedger F) (q : Quality F)
      → AllOpen l.order_audit
      → AllOpen (mark_resting queue r l q).0.order_audit
  unfolding mark_resting transition
  mark_resting-AllOpen queue r l q o = elim (Option-cases (lookup r.order_id l.order_audit)) [
    | inl gone ↦ ground arith
    | inr (a, is) ↦ elim (Bool-cases (allowed a.state OrderState.resting)) [
      | inl moves ↦ ground (
        arith,
        insert-AllOpen r.order_id (profiled queue r (record a { state = OrderState.resting }))
            l.order_audit refl o,
      )
      | inr stays ↦ ground arith
    ]
  ]

  pub begin_cancel-AllOpen :
      (queue : QueueAhead F) (id : ℕ) (l : OrderLedger F)
      → AllOpen l.order_audit
      → AllOpen (begin_cancel queue id l).0.order_audit
  unfolding begin_cancel
  begin_cancel-AllOpen queue id l o = elim (Option-cases (lookup id l.order_audit)) [
    | inl gone ↦ ground arith
    | inr (a, is) ↦ ground (
      arith,
      insert-AllOpen id (record a { queue_at_end = queue a.symbol a.side a.price }) l.order_audit
          (lookup-AllOpen id l.order_audit a o is) o,
    )
  ]

  pub advance-open :
      (r : ExecutionReport F) (a : OrderAudit F) (q : Quality F)
      → is_open a.state ≡ true
      → ((advance r a q).1 ≡ q)
        × (is_terminal r.exec_type ≡ false → is_open (advance r a q).0.state ≡ true)
  unfolding advance next_state transition allowed is_terminal
  advance-open r a q o = ground arith
