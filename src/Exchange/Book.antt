-- ===== src/Exchange/Book.antt =====
-- The resting book of src/exchange/matching_engine.h: `PriceLevel`, `MeOrderBook`, and what the engine
-- uses of `std::map<PriceTick, PriceLevel>`. A map is the list of its entries in the order of its
-- comparator, so its `begin()` is the head.
pub mod Levels
use toy_quant_v.Base.{
  ℕ, ℤ, Bool, Option, none, some, List, [], ◌∷◌, ltb_ℤ, ◌==ℤ◌, ◌==◌, if◌then◌else◌,
}
use toy_quant_v.Exchange.Order.{Order, OrderSide, buy, sell}

pub record PriceLevel (F : Type 0) : Type 0 where
  pub orders : List (Order F)
  pub external_queue_ahead : ℕ

abbrev pub Levels : Type 0 → Type 0
Levels F = List (ℤ × PriceLevel F)

pub record MeOrderBook (F : Type 0) : Type 0 where
  pub bids : Levels F
  pub asks : Levels F

-- The comparator of a side: bids by `std::greater`, asks by `std::less`.
abbrev pub before : OrderSide → ℤ → ℤ → Bool
before buy a b = ltb_ℤ b a
before sell a b = ltb_ℤ a b

module _ {F : Type 0} where
  abbrev pub empty_book : MeOrderBook F
  empty_book = record { bids = []; asks = [] }

  abbrev pub empty_level : PriceLevel F
  empty_level = record { orders = []; external_queue_ahead = 0 }

  abbrev pub levels_of : OrderSide → MeOrderBook F → Levels F
  levels_of buy b = b.bids
  levels_of sell b = b.asks

  abbrev pub with_levels : OrderSide → Levels F → MeOrderBook F → MeOrderBook F
  with_levels buy ls b = record b { bids = ls }
  with_levels sell ls b = record b { asks = ls }

  unfoldable pub find_level : ℤ → Levels F → Option (PriceLevel F)
  find_level t [] = none
  find_level t ((p, l) ∷ ls) = if p ==ℤ t then some l else find_level t ls

  -- `levels[t] = l`: in place where the key is there, at its place in the order otherwise.
  unfoldable pub put_level : OrderSide → ℤ → PriceLevel F → Levels F → Levels F
  put_level side t l [] = (t, l) ∷ []
  put_level side t l ((p, k) ∷ ls) =
      if p ==ℤ t
      then (t, l) ∷ ls
      else if before side t p
      then (t, l) ∷ (p, k) ∷ ls
      else (p, k) ∷ put_level side t l ls

  unfoldable pub erase_level : ℤ → Levels F → Levels F
  erase_level t [] = []
  erase_level t ((p, k) ∷ ls) = if p ==ℤ t then ls else (p, k) ∷ erase_level t ls

  -- `*order_index_[id]`: the order behind the pointer, in the list of its level.
  unfoldable pub find_order : ℕ → List (Order F) → Option (Order F)
  find_order id [] = none
  find_order id (o ∷ os) = if o.id == id then some o else find_order id os

  -- `orders.remove_if(id)`
  unfoldable pub remove_order : ℕ → List (Order F) → List (Order F)
  remove_order id [] = []
  remove_order id (o ∷ os) = if o.id == id then remove_order id os else o ∷ remove_order id os
