-- ===== src/Exchange/Sweep/Index.antt =====
-- The pointers of `order_index_` during a sweep: an order leaves the index and its level together.
use toy_quant_v.Base.{ℕ, ℤ, min, ◌≡◌, Bool, true, false, List, [], ◌∷◌, none, some, arith}
use toy_quant_v.Base.Maps.{lookup, lookup-erase}
use toy_quant_v.Common.Float.{Float}
use toy_quant_v.Common.Fees.{FeeSchedule}
use toy_quant_v.Exchange.Order.{Order}
use toy_quant_v.Exchange.Book.{PriceLevel, Levels, find_level, find_order}
use toy_quant_v.Exchange.Sweep.{
  Sweep, Place, fill_orders, fill_one, match_levels, consume_queue, prevent_self_trade, pop_order,
}

module _ {F : Type 0} where
  abbrev pub rests : ℕ → List (Order F) → Bool
  rests k os = elim (find_order k os) [ none ↦ false | some _ ↦ true ]

  -- The pointer of order `k` to the level at `tick` has its order.
  abbrev pub rests_at : ℕ → ℤ → Levels F → Bool
  rests_at k tick ls = elim (find_level tick ls) [ none ↦ false | some l ↦ rests k l.orders ]

module _ {F : Type 0} ⦃fl : Float F⦄ (fs : FeeSchedule F) (tick_size : F) (inc : Order F) where
  fill_orders-index :
      (best : ℤ) (os : List (Order F)) (s : Sweep F) (k : ℕ) (p : Place)
      → let (os', t) = fill_orders fs tick_size inc best os s in
        lookup k t.order_index ≡ some p
        → (lookup k s.order_index ≡ some p) × (rests k os ≡ true → rests k os' ≡ true)
  unfolding fill_orders fill_one prevent_self_trade find_order
  fill_orders-index best [] s k p h = (h, λ r. r)
  fill_orders-index best (o ∷ os) s k p h =
      let done = fill_one fs tick_size inc best o (min s.qty o.remaining) s in
      ground (
        arith,
        lookup-erase o.id k s.order_index,
        fill_orders-index best os (pop_order o.id done) k p,
      )

  consume_queue-index :
      (level : PriceLevel F) (s : Sweep F)
      → ((consume_queue inc level s).0.orders ≡ level.orders)
        × ((consume_queue inc level s).1.order_index ≡ s.order_index)
  unfolding consume_queue
  consume_queue-index level s = ground arith

  -- A pointer that is still in the index after the sweep was there before, and its order, where it
  -- rested at a level of the side, rests there still.
  pub match_levels-index :
      (tick : ℤ) (ls : Levels F) (s : Sweep F) (k : ℕ) (p : Place) (at' : ℤ)
      → let (ls', t) = match_levels fs tick_size inc tick ls s in
        lookup k t.order_index ≡ some p
        → (lookup k s.order_index ≡ some p) × (rests_at k at' ls ≡ true → rests_at k at' ls' ≡ true)
  unfolding match_levels find_level find_order
  match_levels-index tick [] s k p at' h = (h, λ r. r)
  match_levels-index tick ((best, level) ∷ ls) s k p at' h =
      let (level', s') = consume_queue inc level s in
      let (os, s'') = fill_orders fs tick_size inc best level'.orders s' in
      ground (
        arith,
        consume_queue-index level s,
        fill_orders-index best level'.orders s' k p,
        match_levels-index tick ls s'' k p at',
      )
