-- ===== src/Exchange/Book/Levels.antt =====
-- What the operations on levels and on the orders of a level do to a look-up.
use toy_quant_v.Base.{
  ℕ, ℤ, ◌≡◌, refl, false, List, [], ◌∷◌, ◌++◌, none, some, arith, ◌==◌, ◌==ℤ◌, ==ℤ→≡, if◌then◌else◌,
}
use toy_quant_v.Exchange.Order.{Order, OrderSide}
use toy_quant_v.Exchange.Book.{
  PriceLevel, Levels, find_level, put_level, erase_level, find_order, remove_order,
}

module _ {F : Type 0} where
  pub find_level-put_level :
      (side : OrderSide) (q t : ℤ) (l : PriceLevel F) (ls : Levels F)
      → find_level t (put_level side q l ls) ≡ (if q ==ℤ t then some l else find_level t ls)
  unfolding find_level put_level
  find_level-put_level side q t l [] = refl
  find_level-put_level side q t l ((p, k) ∷ ls) =
      ground (arith, find_level-put_level side q t l ls, ==ℤ→≡ p q, ==ℤ→≡ p t, ==ℤ→≡ q t)

  pub find_level-erase_level :
      (q t : ℤ) (ls : Levels F)
      → (q ==ℤ t) ≡ false
      → find_level t (erase_level q ls) ≡ find_level t ls
  unfolding find_level erase_level
  find_level-erase_level q t [] h = refl
  find_level-erase_level q t ((p, k) ∷ ls) h =
      ground (arith, find_level-erase_level q t ls, ==ℤ→≡ p q, ==ℤ→≡ p t)

  pub find_order-remove_order :
      (id k : ℕ) (os : List (Order F))
      → find_order k (remove_order id os) ≡ (if id == k then none else find_order k os)
  unfolding find_order remove_order
  find_order-remove_order id k [] = ground arith
  find_order-remove_order id k (o ∷ os) = ground (arith, find_order-remove_order id k os)

  pub find_order-append :
      (k : ℕ) (os : List (Order F)) (o : Order F)
      → find_order k (os ++ o ∷ [])
        ≡ elim (find_order k os) [ some r ↦ some r | none ↦ if o.id == k then some o else none ]
  unfolding find_order
  find_order-append k [] o = refl
  find_order-append k (r ∷ os) o = ground (arith, find_order-append k os o)
