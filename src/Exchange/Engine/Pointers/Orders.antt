-- ===== src/Exchange/Engine/Pointers/Orders.antt =====
-- The orders' operations keep every pointer of `order_index_` on a resting order.
use toy_quant_v.Base.{
  ℕ, ◌≡◌, refl, Bool, true, false, ◌||◌, ◌&&◌, not, ltb, leb, List, [], ◌∷◌, inl, inr, Bool-cases,
  Option-cases, arith, ◌==◌, ==ℤ→≡, if◌then◌else◌,
}
use toy_quant_v.Base.Maps.{lookup, insert, erase, lookup-insert, lookup-erase, contains}
use toy_quant_v.Common.Types.{gtc?}
use toy_quant_v.Common.Float.{Float, to_price_tick}
use toy_quant_v.Exchange.Order.{Order}
use toy_quant_v.Exchange.Book.{
  PriceLevel, MeOrderBook, levels_of, find_level, find_order, remove_order,
}
use toy_quant_v.Exchange.Book.Levels.{
  find_level-put_level, find_level-erase_level, find_order-remove_order,
}
use toy_quant_v.Exchange.Sweep.{Place}
use toy_quant_v.Exchange.Engine.{
  Engine, PendingCancel, book_at, put_report, symbol_id, reject_order,
}
use toy_quant_v.Exchange.Engine.Match.{match_order}
use toy_quant_v.Exchange.Engine.Touch.{match_external_bbo}
use toy_quant_v.Exchange.Engine.Send.{
  execute_order, accept_order, send_order_now, send_order, deliver, advance_to, sort_due, fok_short,
  malformed, off_lot,
}
use toy_quant_v.Exchange.Engine.Cancel.{
  deref, remove_from, cancel_order_immediate, cancel_order, apply_cancels, apply_pending_cancels,
}
use toy_quant_v.Exchange.Engine.Pointers.{
  NoDangling, NoDangling-frame, match_order-NoDangling, in_book,
}

module _ {F R : Type 0} ⦃fl : Float F⦄ where
  pub frame-match_external_bbo :
      (id : ℕ) (o : Order F) (e : Engine F R)
      → let e' = (match_external_bbo id o e).1 in
        (e'.order_index ≡ e.order_index) × (e'.books ≡ e.books)
  unfolding match_external_bbo put_report
  frame-match_external_bbo id o e = ground arith

  pub frame-symbol_id :
      (e : Engine F R) (symbol : List ℕ)
      → let e' = (symbol_id e symbol).1 in (e'.order_index ≡ e.order_index) × (e'.books ≡ e.books)
  unfolding symbol_id
  frame-symbol_id e symbol = ground arith

  pub symbol_id-NoDangling :
      (e : Engine F R) (symbol : List ℕ) → NoDangling e → NoDangling (symbol_id e symbol).1
  symbol_id-NoDangling e symbol v =
      let f = frame-symbol_id e symbol in NoDangling-frame e _ f.0 f.1 v

  execute_order-NoDangling :
      (id : ℕ) (o : Order F) (e : Engine F R) → NoDangling e → NoDangling (execute_order id o e)
  unfolding execute_order put_report
  execute_order-NoDangling id o e v =
      let (left, e1) = match_external_bbo id o e in
      let f = frame-match_external_bbo id o e in
      let v1 = NoDangling-frame e e1 f.0 f.1 v in
      let (e2, unfilled) = match_order id left (gtc? o.time_in_force) e1 in
      let v2 = match_order-NoDangling id left (gtc? o.time_in_force) e1 v1 in
      elim (Bool-cases (left.remaining == 0)) [
        | inl done ↦ rw done v1
        | inr more ↦ rw more (elim (Bool-cases (ltb 0 unfilled && not (gtc? o.time_in_force))) [
          | inl cut ↦ rw cut (NoDangling-frame e2 _ refl refl v2)
          | inr rests' ↦ rw rests' v2
        ])
      ]

  send_order_now-NoDangling :
      (o : Order F) (e : Engine F R) → NoDangling e → NoDangling (send_order_now o e)
  unfolding send_order_now accept_order put_report reject_order
  send_order_now-NoDangling o e v =
      let (id, e') = symbol_id e o.symbol in
      let v' = symbol_id-NoDangling e o.symbol v in
      elim (Bool-cases (malformed e o || off_lot e o)) [
        | inl bad ↦ rw bad (NoDangling-frame e _ refl refl v)
        | inr good ↦ rw good (elim (Bool-cases (fok_short id o e')) [
          | inl short ↦ rw short (NoDangling-frame e' _ refl refl v')
          | inr enough ↦ rw enough (execute_order-NoDangling id o e' v')
        ])
      ]

  pub send_order-NoDangling :
      (o : Order F) (e : Engine F R) → NoDangling e → NoDangling (send_order o e)
  unfolding send_order
  send_order-NoDangling o e v = elim (Bool-cases (e.order_latency_us == 0)) [
    | inl now ↦ rw now (send_order_now-NoDangling o e v)
    | inr later ↦ rw later (NoDangling-frame e _ refl refl v)
  ]

  deliver-NoDangling :
      (ts : ℕ) (os : List (ℕ × Order F)) (e : Engine F R)
      → NoDangling e
      → NoDangling (deliver ts os e)
  unfolding deliver
  deliver-NoDangling ts [] e v = NoDangling-frame e _ refl refl v
  deliver-NoDangling ts ((due, o) ∷ os) e v = elim (Bool-cases (leb due ts)) [
    | inl now ↦
        rw now (deliver-NoDangling ts os (send_order_now o e) (send_order_now-NoDangling o e v))
    | inr later ↦ rw later (NoDangling-frame e _ refl refl v)
  ]

  pub advance_to-NoDangling :
      (ts : ℕ) (e : Engine F R) → NoDangling e → NoDangling (advance_to ts e)
  unfolding advance_to
  advance_to-NoDangling ts e v =
      deliver-NoDangling ts (sort_due e.in_flight_orders) _ (NoDangling-frame e _ refl refl v)

  remove_from-in_book :
      (e : Engine F R) (id : ℕ) (o : Order F) (b : MeOrderBook F) (k : ℕ) (p : Place)
      → (id == k) ≡ false
      → in_book k p b ≡ true
      → in_book k p (remove_from e id o b) ≡ true
  unfolding remove_from find_order
  remove_from-in_book e id o b k p ne h =
      let tick = to_price_tick o.price e.tick_size in
      let levels = levels_of o.side b in
      elim (Option-cases (find_level tick levels)) [
        | inl miss ↦ rw (miss, remove_from) h
        | inr (level, hit) ↦
            let orders' = remove_order id level.orders in
            let level' : PriceLevel F = record level { orders = orders' } in
            ground (
              arith,
              find_order-remove_order id k level.orders,
              find_level-put_level o.side tick p.tick level' levels,
              find_level-erase_level tick p.tick levels,
              ==ℤ→≡ tick p.tick,
            )
      ]

  cancelled : ℕ → Order F → Engine F R → Engine F R
  cancelled id o e =
      let (sym, e1) = symbol_id e o.symbol in
      record e1 {
        books = insert sym (remove_from e1 id o (book_at e1 sym)) e1.books;
        order_index = erase id e1.order_index;
      }

  cancelled-NoDangling :
      (id : ℕ) (o : Order F) (e : Engine F R) → NoDangling e → NoDangling (cancelled id o e)
  unfolding cancelled book_at
  cancelled-NoDangling id o e v = record {
    rests_on = λ k p h.
        let (sym, e1) = symbol_id e o.symbol in
        let b = remove_from e1 id o (book_at e1 sym) in
        ground (
          arith,
          (symbol_id-NoDangling e o.symbol v).rests_on k p,
          lookup-erase id k e1.order_index,
          lookup-insert sym p.symbol_id b e1.books,
          remove_from-in_book e1 id o (book_at e1 sym) k p,
        );
  }

  pub cancel_order_immediate-NoDangling :
      (id : ℕ) (e : Engine F R) → NoDangling e → NoDangling (cancel_order_immediate id e)
  unfolding cancel_order_immediate put_report cancelled
  cancel_order_immediate-NoDangling id e v = elim (Option-cases (lookup id e.order_index)) [
    | inl absent ↦ rw (absent, cancel_order_immediate) v
    | inr (place, at') ↦
        rw (at', cancel_order_immediate)
          (elim (Option-cases (deref e id place)) [
            | inl dangling ↦ rw (dangling, cancel_order_immediate) v
            | inr (o, hit) ↦
                rw (hit, cancel_order_immediate)
                  (NoDangling-frame (cancelled id o e) _ refl refl (cancelled-NoDangling id o e v))
          ])
  ]

  pub cancel_order-NoDangling :
      (id : ℕ) (e : Engine F R) → NoDangling e → NoDangling (cancel_order id e)
  unfolding cancel_order
  cancel_order-NoDangling id e v =
      elim (Bool-cases (ltb 0 e.cancel_delay_events || ltb 0 e.cancel_latency_us)) [
        | inr now ↦ rw now (cancel_order_immediate-NoDangling id e v)
        | inl later ↦ rw later (elim (Bool-cases (contains id e.order_index)) [
          | inl known ↦ rw known (NoDangling-frame e _ refl refl v)
          | inr unknown' ↦ rw unknown' v
        ])
      ]

  pub if-NoDangling :
      (b : Bool) (e e' : Engine F R)
      → NoDangling e
      → NoDangling e'
      → NoDangling (if b then e else e')
  if-NoDangling true e e' v v' = v
  if-NoDangling false e e' v v' = v'

  apply_cancels-NoDangling :
      (ps : List (ℕ × PendingCancel)) (e : Engine F R)
      → NoDangling e
      → NoDangling (apply_cancels ps e)
  unfolding apply_cancels
  apply_cancels-NoDangling [] e v = v
  apply_cancels-NoDangling ((id, p) ∷ ps) e v =
      let waiting = record e { pending_cancels = erase id e.pending_cancels } in
      apply_cancels-NoDangling ps _ (
        if-NoDangling _ e (cancel_order_immediate id waiting) v
          (cancel_order_immediate-NoDangling id waiting (NoDangling-frame e waiting refl refl v)))

  pub apply_pending_cancels-NoDangling :
      (e : Engine F R) → NoDangling e → NoDangling (apply_pending_cancels e)
  unfolding apply_pending_cancels
  apply_pending_cancels-NoDangling e v = apply_cancels-NoDangling e.pending_cancels e v
