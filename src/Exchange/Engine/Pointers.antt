-- ===== src/Exchange/Engine/Pointers.antt =====
-- The pointers of `order_index_`: every operation of the engine keeps each of them on an order that
-- rests in the book, so `cancel_order_immediate` never reads through a dangling one.
pub mod Orders
pub mod Events
use toy_quant_v.Base.{
  ℕ, ℤ, ◌≡◌, refl, ◌⊎◌, inl, inr, Option-cases, Bool, true, false, List, [], ◌∷◌, ◌++◌, Option,
  none, some, arith, ◌==◌, ◌==ℤ◌, ==ℤ→≡, ==ℤ_refl, if◌then◌else◌, ltb,
}
use toy_quant_v.Base.Maps.{lookup, insert, erase, lookup-insert, lookup-erase}
use toy_quant_v.Common.Float.{Float, to_price_tick}
use toy_quant_v.Exchange.Order.{Order, OrderSide, CancelReason}
use toy_quant_v.Exchange.Book.{
  PriceLevel, Levels, MeOrderBook, levels_of, with_levels, find_level, put_level, erase_level,
  find_order, remove_order,
}
use toy_quant_v.Exchange.Book.Levels.{
  find_level-put_level, find_level-erase_level, find_order-remove_order, find_order-append,
}
use toy_quant_v.Exchange.Sweep.{Sweep, Place, match_levels, state_report, filled_or_partial}
use toy_quant_v.Exchange.Sweep.Index.{rests, rests_at, match_levels-index}
use toy_quant_v.Exchange.Engine.{Engine, book_at, put_report, symbol_id}
use toy_quant_v.Exchange.Engine.Match.{
  match_side, match_order, rest_unfilled, join_level, level_or_new, start_sweep, end_sweep,
  opposite,
}
use toy_quant_v.Exchange.Engine.Cancel.{deref, remove_from, cancel_order_immediate}

module _ {F : Type 0} where
  abbrev pub in_book : ℕ → Place → MeOrderBook F → Bool
  in_book k p b = rests_at k p.tick (levels_of p.side b)

  rests-some :
      (k : ℕ) (os : List (Order F)) → rests k os ≡ true → (o : Order F) × (find_order k os ≡ some o)
  rests-some k os h = elim (Option-cases (find_order k os)) [
    | inl e ↦ absurd (ground arith)
    | inr (o, e) ↦ (o, e)
  ]

  found :
      (k : ℕ) (m : Option (PriceLevel F))
      → elim m [ none ↦ false | some l ↦ rests k l.orders ] ≡ true
      → (o : Order F) × (elim m [ none ↦ none | some l ↦ find_order k l.orders ] ≡ some o)
  found k none h = absurd (cc)
  found k (some l) h = rests-some k l.orders h

module _ {F R : Type 0} where
  -- Every pointer of the index points to an order of its id that rests where it points.
  pub record NoDangling (e : Engine F R) : Type 0 where
    pub rests_on :
        (k : ℕ) (p : Place)
        → lookup k e.order_index ≡ some p
        → in_book k p (book_at e p.symbol_id) ≡ true

  pub deref-NoDangling :
      (e : Engine F R) (k : ℕ) (p : Place)
      → NoDangling e
      → lookup k e.order_index ≡ some p
      → (o : Order F) × (deref e k p ≡ some o)
  unfolding deref
  deref-NoDangling e k p v h =
      found k (find_level p.tick (levels_of p.side (book_at e p.symbol_id))) (v.rests_on k p h)

  pub book_at-insert :
      (id j : ℕ) (b : MeOrderBook F) (e : Engine F R)
      → book_at (record e { books = insert id b e.books }) j ≡ (if id == j then b else book_at e j)
  unfolding book_at
  book_at-insert id j b e = ground (arith, lookup-insert id j b e.books)

  pub NoDangling-frame :
      (e e' : Engine F R)
      → e'.order_index ≡ e.order_index
      → e'.books ≡ e.books
      → NoDangling e
      → NoDangling e'
  unfolding book_at
  NoDangling-frame e e' i b v = record { rests_on = λ k p h. rw b (v.rests_on k p (rw i at h)) }

  pub index-end_sweep :
      (side : OrderSide) (s : Sweep F) (e : Engine F R)
      → ((end_sweep side s e).order_index ≡ s.order_index) × ((end_sweep side s e).books ≡ e.books)
  unfolding end_sweep
  index-end_sweep OrderSide.buy s e = (refl, refl)
  index-end_sweep OrderSide.sell s e = (refl, refl)

module _ {F R : Type 0} ⦃fl : Float F⦄ where
  -- The pointers after an order came to rest, or after `match_side`: those of before, whose orders
  -- rest in the book still, and the new order's.
  abbrev Kept : ℕ → ℕ → Place → MeOrderBook F → MeOrderBook F → Engine F R → Type 0
  Kept id k p b b' e =
      ((lookup k e.order_index ≡ some p) × (in_book k p b ≡ true → in_book k p b' ≡ true))
      ⊎ ((p.symbol_id ≡ id) × (in_book k p b' ≡ true))

  rest_unfilled-pointers :
      (id : ℕ) (o : Order F) (tick : ℤ) (b : MeOrderBook F) (e : Engine F R) (k : ℕ) (p : Place)
      → let (b', e') = rest_unfilled id o tick b e in
        lookup k e'.order_index ≡ some p → Kept id k p b b' e
  unfolding rest_unfilled put_report join_level
  rest_unfilled-pointers id o tick b e k p h =
      let levels = levels_of o.side b in
      let level = level_or_new (find_level tick levels) in
      ground (
        arith,
        lookup-insert o.id k (record { symbol_id = id; side = o.side; tick = tick }) e.order_index,
        find_level-put_level o.side tick p.tick (join_level e o level) levels,
        find_order-append k level.orders o,
        ==ℤ→≡ tick p.tick,
        ==ℤ_refl tick,
      )

  match_side-pointers :
      (id : ℕ) (b : MeOrderBook F) (o : Order F) (rest : Bool) (e : Engine F R) (k : ℕ) (p : Place)
      → let (b', e', left) = match_side id b o rest e in
        lookup k e'.order_index ≡ some p → Kept id k p b b' e
  unfolding match_side put_report start_sweep
  match_side-pointers id b o rest e k p h =
      let tick = to_price_tick o.price e.tick_size in
      let against = opposite o.side in
      let (ls, s) =
        match_levels e.fee_schedule e.tick_size o tick (levels_of against b) (start_sweep e o) in
      let swept = with_levels against ls b in
      let e1 = end_sweep o.side s e in
      let left = record o { remaining = s.qty } in
      let done = state_report o (filled_or_partial s.qty) o.price s.qty o.ts CancelReason.none in
      ground (
        arith,
        match_levels-index e.fee_schedule e.tick_size o tick (levels_of against b) (start_sweep e o)
            k p p.tick,
        index-end_sweep o.side s e,
        rest_unfilled-pointers id left tick swept e1 k p,
        rest_unfilled-pointers id left tick swept (put_report done e1) k p,
      )

  -- `match_side` writes no book but the one that it is given.
  books-match_side :
      (id : ℕ) (b : MeOrderBook F) (o : Order F) (rest : Bool) (e : Engine F R) (j : ℕ)
      → book_at (match_side id b o rest e).1 j ≡ book_at e j
  unfolding match_side rest_unfilled put_report book_at
  books-match_side id b o rest e j =
      let tick = to_price_tick o.price e.tick_size in
      let (ls, s) =
        match_levels e.fee_schedule e.tick_size o tick (levels_of (opposite o.side) b)
          (start_sweep e o) in
      ground (arith, index-end_sweep o.side s e)

  pub match_order-NoDangling :
      (id : ℕ) (o : Order F) (rest : Bool) (e : Engine F R)
      → NoDangling e
      → NoDangling (match_order id o rest e).0
  unfolding match_order
  match_order-NoDangling id o rest e v = record {
    rests_on = λ k p h.
        let (b', e', left) = match_side id (book_at e id) o rest e in
        ground (
          arith,
          match_side-pointers id (book_at e id) o rest e k p,
          v.rests_on k p,
          book_at-insert id p.symbol_id b' e',
          books-match_side id (book_at e id) o rest e p.symbol_id,
        );
  }
