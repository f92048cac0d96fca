-- ===== src/Exchange/Sweep/Priority.antt =====
-- Price-time priority of the matching loops: which of the resting orders a sweep takes from.
use toy_quant_v.Base.{
  ℕ, ℤ, ◌-◌, ◌<◌, min, inl, inr, ◌≡◌, refl, sym, subst, Bool-cases, true, ◌||◌, ◌==◌, List, [], ◌∷◌,
  ◌++◌, arith,
}
use toy_quant_v.Common.Float.{Float}
use toy_quant_v.Common.Fees.{FeeSchedule}
use toy_quant_v.Exchange.Order.{Order}
use toy_quant_v.Exchange.Book.{PriceLevel, Levels}
use toy_quant_v.Exchange.Sweep.{
  Sweep, consume_queue, fill_orders, fill_one, match_levels, pop_order, is_self_trade, is_empty,
  out_of_reach,
}

module _ {F : Type 0} where
  -- The orders of a side, best level first and oldest first within a level.
  unfoldable pub in_priority : Levels F → List (Order F)
  in_priority [] = []
  in_priority ((t, l) ∷ ls) = l.orders ++ in_priority ls

  -- A prefix is gone, the next order may have lost a part, and all behind it is untouched.
  pub data Taken : List (Order F) → List (Order F) → Type 0 where
    untouched : (os : List (Order F)) → Taken os os
    reduced :
        (o : Order F) (os : List (Order F)) (n : ℕ)
        → n < o.remaining
        → 0 < n
        → Taken (o ∷ os) (record o { remaining = n } ∷ os)
    gone : {os os' : List (Order F)} (o : Order F) → Taken os os' → Taken (o ∷ os) os'

  pub Taken-append :
      {os os' : List (Order F)} (more : List (Order F))
      → Taken os os'
      → Taken (os ++ more) (os' ++ more)
  Taken-append more (untouched os) = untouched (os ++ more)
  Taken-append more (reduced o os n h k) = reduced o (os ++ more) n h k
  Taken-append more (gone o t) = gone o (Taken-append more t)

  pub Taken-all :
      {os os' more more' : List (Order F)}
      → Taken os os'
      → os' ≡ []
      → Taken more more'
      → Taken (os ++ more) more'
  Taken-all {more = more} {more' = more'} (untouched os) e t =
      subst (λ xs. Taken (xs ++ more) more') (sym e) t
  Taken-all (reduced o os n h k) e t = absurd (cc)
  Taken-all (gone o s) e t = gone o (Taken-all s e t)

is_empty-nil : {A : Type 0} (xs : List A) → is_empty xs ≡ true → xs ≡ []
is_empty-nil [] h = refl
is_empty-nil (x ∷ xs) h = absurd (cc)

orders-consume_queue :
    {F : Type 0} (inc : Order F) (level : PriceLevel F) (s : Sweep F)
    → (consume_queue inc level s).0.orders ≡ level.orders
unfolding consume_queue
orders-consume_queue inc level s = ground arith

module _ {F : Type 0} ⦃fl : Float F⦄ (fs : FeeSchedule F) (tick_size : F) (inc : Order F) where
  fill_orders-Taken :
      (best : ℤ) (os : List (Order F)) (s : Sweep F)
      → Taken os (fill_orders fs tick_size inc best os s).0
  unfolding fill_orders
  fill_orders-Taken best [] s = untouched []
  fill_orders-Taken best (o ∷ os) s =
      let done = fill_one fs tick_size inc best o (min s.qty o.remaining) s in
      let left = o.remaining - min s.qty o.remaining in
      elim (Bool-cases (s.qty == 0)) [
        | inl used ↦ rw used (untouched (o ∷ os))
        | inr open' ↦ rw open' (elim (Bool-cases (is_self_trade o inc)) [
          | inl own ↦ rw own (untouched (o ∷ os))
          | inr other ↦ rw other (elim (Bool-cases (left == 0)) [
            | inl filled ↦ rw filled (gone o (fill_orders-Taken best os (pop_order o.id done)))
            | inr part ↦ rw part (reduced o os left (ground arith) (ground arith))
          ])
        ])
      ]

  -- A sweep takes from the resting orders in their priority: from an order only once those before it
  -- are gone.
  pub match_levels-Taken :
      (tick : ℤ) (ls : Levels F) (s : Sweep F)
      → Taken (in_priority ls) (in_priority (match_levels fs tick_size inc tick ls s).0)
  unfolding match_levels in_priority
  match_levels-Taken tick [] s = untouched []
  match_levels-Taken tick ((best, level) ∷ ls) s =
      let (level', s') = consume_queue inc level s in
      let (os, s'') = fill_orders fs tick_size inc best level'.orders s' in
      let same = orders-consume_queue inc level s in
      let taken = subst (λ xs. Taken xs os) same (fill_orders-Taken best level'.orders s') in
      elim (Bool-cases (s.qty == 0 || out_of_reach inc.side tick best)) [
        | inl stop ↦ rw stop (untouched _)
        | inr go ↦ rw go (elim (Bool-cases (s'.qty == 0)) [
          | inl used ↦ rw (used, same) (untouched _)
          | inr more ↦ rw more (elim (Bool-cases (is_empty os)) [
            | inl all ↦
                rw all (Taken-all taken (is_empty-nil os all) (match_levels-Taken tick ls s''))
            | inr some' ↦ rw some' (Taken-append (in_priority ls) taken)
          ])
        ])
      ]
