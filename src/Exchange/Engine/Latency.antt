-- ===== src/Exchange/Engine/Latency.antt =====
-- The one-way latency of an order: `advance_to` against its specification by filters.
use toy_quant_v.Base.{
  ℕ, ◌≤◌, ◌<◌, max, ◌≡◌, refl, true, false, List, [], ◌∷◌, arith, leb, ◌==◌, if◌then◌else◌,
}
use mathlib.Core.List.{Perm}
use mathlib.Core.List.Perm
use toy_quant_v.Common.Float.{Float}
use toy_quant_v.Exchange.Order.{Order}
use toy_quant_v.Exchange.Engine.{Engine}
use toy_quant_v.Exchange.Engine.Send.{insert_due, sort_due, deliver, advance_to, send_order_now}

module _ {F : Type 0} where
  -- The orders whose time has come, and the others, in the order of the list.
  pub due_at : ℕ → List (ℕ × Order F) → List (ℕ × Order F)
  due_at ts [] = []
  due_at ts (x ∷ xs) = if leb x.0 ts then x ∷ due_at ts xs else due_at ts xs

  pub waiting_at : ℕ → List (ℕ × Order F) → List (ℕ × Order F)
  waiting_at ts [] = []
  waiting_at ts (x ∷ xs) = if leb x.0 ts then waiting_at ts xs else x ∷ waiting_at ts xs

  abbrev pub Ascending : ℕ → List (ℕ × Order F) → Type 0
  Ascending n [] = Unit {0}
  Ascending n (x ∷ xs) = (n ≤ x.0) × Ascending x.0 xs

  insert_due-Ascending :
      (n : ℕ) (x : ℕ × Order F) (xs : List (ℕ × Order F))
      → n ≤ x.0
      → Ascending n xs
      → Ascending n (insert_due x xs)
  unfolding insert_due
  insert_due-Ascending n x [] h a = (h, tt)
  insert_due-Ascending n x (y ∷ ys) h a = ground (arith, insert_due-Ascending y.0 x ys)

  sort_due-Ascending : (xs : List (ℕ × Order F)) → Ascending 0 (sort_due xs)
  unfolding sort_due
  sort_due-Ascending [] = tt
  sort_due-Ascending (x ∷ xs) =
      insert_due-Ascending 0 x (sort_due xs) (omega arith) (sort_due-Ascending xs)

  insert_due-perm : (x : ℕ × Order F) (xs : List (ℕ × Order F)) → Perm (insert_due x xs) (x ∷ xs)
  unfolding insert_due
  insert_due-perm x [] = Perm.refl (x ∷ [])
  insert_due-perm x (y ∷ ys) =
      elim (leb x.0 y.0)
        as (λ b. Perm (if b then x ∷ y ∷ ys else y ∷ insert_due x ys) (x ∷ y ∷ ys)) [
          | true ↦ Perm.refl (x ∷ y ∷ ys)
          | false ↦ Perm.trans (Perm.cons y (insert_due-perm x ys)) (Perm.swap x y ys)
        ]

  sort_due-perm : (xs : List (ℕ × Order F)) → Perm (sort_due xs) xs
  unfolding sort_due
  sort_due-perm [] = Perm.refl []
  sort_due-perm (x ∷ xs) =
      Perm.trans (insert_due-perm x (sort_due xs)) (Perm.cons x (sort_due-perm xs))

  waiting_at-above :
      (ts n : ℕ) (xs : List (ℕ × Order F)) → ts < n → Ascending n xs → waiting_at ts xs ≡ xs
  unfolding waiting_at
  waiting_at-above ts n [] h a = refl
  waiting_at-above ts n (x ∷ xs) h a = ground (arith, waiting_at-above ts x.0 xs)

  due_at-above : (ts n : ℕ) (xs : List (ℕ × Order F)) → ts < n → Ascending n xs → due_at ts xs ≡ []
  unfolding due_at
  due_at-above ts n [] h a = refl
  due_at-above ts n (x ∷ xs) h a = ground (arith, due_at-above ts x.0 xs)

  -- Those of one delivery time, in the order of the list.
  pub at_time : ℕ → List (ℕ × Order F) → List (ℕ × Order F)
  at_time t [] = []
  at_time t (x ∷ xs) = if x.0 == t then x ∷ at_time t xs else at_time t xs

  insert_due-at_time :
      (t : ℕ) (x : ℕ × Order F) (xs : List (ℕ × Order F))
      → at_time t (insert_due x xs) ≡ at_time t (x ∷ xs)
  unfolding insert_due at_time
  insert_due-at_time t x [] = refl
  insert_due-at_time t x (y ∷ ys) = ground (arith, insert_due-at_time t x ys)

  sort_due-at_time : (t : ℕ) (xs : List (ℕ × Order F)) → at_time t (sort_due xs) ≡ at_time t xs
  unfolding sort_due at_time
  sort_due-at_time t [] = refl
  sort_due-at_time t (x ∷ xs) =
      ground (arith, insert_due-at_time t x (sort_due xs), sort_due-at_time t xs)

module _ {F R : Type 0} ⦃fl : Float F⦄ where
  pub send_all : List (ℕ × Order F) → Engine F R → Engine F R
  send_all [] e = e
  send_all (x ∷ xs) e = send_all xs (send_order_now x.1 e)

  abbrev pub hold : List (ℕ × Order F) → Engine F R → Engine F R
  hold os e = record e { in_flight_orders = os }

  deliver-Ascending :
      (ts n : ℕ) (xs : List (ℕ × Order F)) (e : Engine F R)
      → Ascending n xs
      → deliver ts xs e ≡ hold (waiting_at ts xs) (send_all (due_at ts xs) e)
  unfolding deliver due_at waiting_at send_all
  deliver-Ascending ts n [] e a = refl
  deliver-Ascending ts n (x ∷ xs) e a = ground (
    arith,
    deliver-Ascending ts x.0 xs (send_order_now x.1 e),
    waiting_at-above ts x.0 xs,
    due_at-above ts x.0 xs,
  )

  -- A delivery up to `ts`: `order` is the orders in flight, sorted by the time at which they are due and
  -- stable; the due ones are sent in this order, and the others wait in it.
  pub record Delivers (ts : ℕ) (e e' : Engine F R) : Type 0 where
    pub order : List (ℕ × Order F)
    pub same_orders : Perm order e.in_flight_orders
    pub by_time : Ascending 0 order
    pub stable : (t : ℕ) → at_time t order ≡ at_time t e.in_flight_orders
    pub delivered :
        e'
        ≡ hold
            (waiting_at ts order)
            (send_all (due_at ts order) (record e { now_us = max e.now_us ts }))

  -- Whenever the clock moves on to `ts`, the orders in flight are sorted by the time at which they are
  -- due, those of one time in the order in which they were sent; those due by `ts` are sent to the book
  -- in that order, each once, and the others stay in flight.
  pub advance_to-Delivers : (ts : ℕ) (e : Engine F R) → Delivers ts e (advance_to ts e)
  unfolding advance_to
  advance_to-Delivers ts e = record {
    order = sort_due e.in_flight_orders;
    same_orders = sort_due-perm e.in_flight_orders;
    by_time = sort_due-Ascending e.in_flight_orders;
    stable = λ t. sort_due-at_time t e.in_flight_orders;
    delivered = deliver-Ascending ts 0 _ _ (sort_due-Ascending e.in_flight_orders);
  }
