-- ===== src/Exchange/Engine/Immediate.antt =====
-- An immediate order (IOC or FOK) never rests.
use toy_quant_v.Base.{ℕ, ◌≡◌, refl, ◌∙◌, subst, Bool-cases, inl, inr, false, some, arith, ltb, ◌==◌}
use toy_quant_v.Base.Maps.{lookup, lookup-insert}
use toy_quant_v.Common.Types.{gtc?}
use toy_quant_v.Common.Float.{Float, to_price_tick}
use toy_quant_v.Exchange.Order.{Order, OrderSide, ExecutionReport}
use toy_quant_v.Exchange.Book.{levels_of, with_levels}
use toy_quant_v.Exchange.Sweep.{Place, match_levels}
use toy_quant_v.Exchange.Sweep.Index.{match_levels-index}
use toy_quant_v.Exchange.Engine.{Engine, book_at, put_report}
use toy_quant_v.Exchange.Engine.Match.{match_side, match_order, start_sweep, opposite}
use toy_quant_v.Exchange.Engine.Touch.{match_external_bbo}
use toy_quant_v.Exchange.Engine.Send.{accept_order, execute_order, fok_short}
use toy_quant_v.Exchange.Engine.Pointers.{index-end_sweep}
use toy_quant_v.Exchange.Engine.Pointers.Orders.{frame-match_external_bbo}

module _ {F R : Type 0} ⦃fl : Float F⦄ where
  -- What the book and the index keep where nothing comes to rest: the own side of the book as it
  -- is, and no pointer that was not there.
  pub record NotResting (id : ℕ) (side : OrderSide) (e e' : Engine F R) : Type 0 where
    pub own_side : levels_of side (book_at e' id) ≡ levels_of side (book_at e id)
    pub no_pointer :
        (k : ℕ) (p : Place) → lookup k e'.order_index ≡ some p → lookup k e.order_index ≡ some p

  match_order-NotResting :
      (id : ℕ) (o : Order F) (e : Engine F R) → NotResting id o.side e (match_order id o false e).0
  unfolding match_order match_side put_report start_sweep book_at
  match_order-NotResting id o e =
      let tick = to_price_tick o.price e.tick_size in
      let levels = levels_of (opposite o.side) (book_at e id) in
      let (ls, s) = match_levels e.fee_schedule e.tick_size o tick levels (start_sweep e o) in
      let swept = with_levels (opposite o.side) ls (book_at e id) in
      record {
        own_side = ground (arith, lookup-insert id id swept e.books, index-end_sweep o.side s e);
        no_pointer = λ k p h. ground (
          arith,
          match_levels-index e.fee_schedule e.tick_size o tick levels (start_sweep e o) k p tick,
          index-end_sweep o.side s e,
        );
      }

  NotResting-frame :
      (id : ℕ) (side : OrderSide) (e e' : Engine F R)
      → (e'.order_index ≡ e.order_index) × (e'.books ≡ e.books)
      → NotResting id side e e'
  unfolding book_at
  NotResting-frame id side e e' f = record {
    own_side = rw f.1 refl;
    no_pointer = λ k p h. rw f.0 at h;
  }

  NotResting-trans :
      (id : ℕ) (side : OrderSide) (a b c : Engine F R)
      → NotResting id side a b
      → NotResting id side b c
      → NotResting id side a c
  NotResting-trans id side a b c h k = record {
    own_side = k.own_side ∙ h.own_side;
    no_pointer = λ n p q. h.no_pointer n p (k.no_pointer n p q);
  }

  side-match_external_bbo :
      (id : ℕ) (o : Order F) (e : Engine F R) → (match_external_bbo id o e).0.side ≡ o.side
  unfolding match_external_bbo
  side-match_external_bbo id o e = ground arith

  -- An immediate order that is accepted leaves its own side of the book as it was, and no pointer in
  -- the index that was not there: whatever of it is not traded is gone.
  pub accept_order-NotResting :
      (id : ℕ) (o : Order F) (e : Engine F R)
      → gtc? o.time_in_force ≡ false
      → NotResting id o.side e (accept_order id o e)
  unfolding accept_order execute_order put_report book_at
  accept_order-NotResting id o e h =
      let (left, e1) = match_external_bbo id o e in
      let touched = NotResting-frame id o.side e e1 (frame-match_external_bbo id o e) in
      let (e2, unfilled) = match_order id left false e1 in
      let matched = NotResting-trans id o.side e e1 e2 touched (
        subst (λ side. NotResting id side e1 e2) (side-match_external_bbo id o e)
          (match_order-NotResting id left e1)) in
      let reported = λ (r : ExecutionReport F).
        NotResting-trans id o.side e e2 (put_report r e2) matched
          (NotResting-frame id o.side e2 (put_report r e2) (refl, refl)) in
      elim (Bool-cases (fok_short id o e)) [
        | inl short ↦ rw short (NotResting-frame id o.side e _ (refl, refl))
        | inr enough ↦
            rw (enough, h)
              (elim (Bool-cases (left.remaining == 0)) [
                | inl done ↦ rw done touched
                | inr more ↦ rw more (elim (Bool-cases (ltb 0 unfilled)) [
                  | inl cut ↦ rw cut (reported _)
                  | inr rest ↦ rw rest matched
                ])
              ])
      ]
