-- ===== src/Exchange/Sweep/Limit.antt =====
-- The prices at which the matching loops trade, and what they never touch.
use toy_quant_v.Base.{ℕ, ℤ, ◌⊎◌, ◌≡◌, true, false, List, [], ◌∷◌}
use toy_quant_v.Common.Float.{Float, to_price}
use toy_quant_v.Common.Fees.{FeeSchedule}
use toy_quant_v.Exchange.Order.{Order, ExecutionReport, trade?}
use toy_quant_v.Exchange.Book.{Levels}
use toy_quant_v.Exchange.Sweep.{Sweep, out_of_reach}

-- `new` is `old` with later reports before it, each with the property.
pub data Extends {F : Type 0} (P : ExecutionReport F → Type 0) (old : List (ExecutionReport F))
    : List (ExecutionReport F) → Type 0 where
  same : Extends P old old
  later :
      {new : List (ExecutionReport F)} (r : ExecutionReport F)
      → P r
      → Extends P old new
      → Extends P old (r ∷ new)

pub Extends-trans :
    {F : Type 0} {P : ExecutionReport F → Type 0} {a b c : List (ExecutionReport F)}
    → Extends P a b
    → Extends P b c
    → Extends P a c
Extends-trans h same = h
Extends-trans h (later r p k) = later r p (Extends-trans h k)

module _ {F : Type 0} where
  abbrev pub HasOrder : ℕ → List (Order F) → Type 0
  HasOrder id [] = ⊥
  HasOrder id (o ∷ os) = (o.id ≡ id) ⊎ HasOrder id os

  -- A level at the tick with the order in its queue.
  abbrev pub RestsAt : ℕ → ℤ → Levels F → Type 0
  RestsAt id tick [] = ⊥
  RestsAt id tick ((best, level) ∷ ls) =
      ((best ≡ tick) × HasOrder id level.orders) ⊎ RestsAt id tick ls

module _ {F : Type 0} ⦃fl : Float F⦄ (fs : FeeSchedule F) (tick_size : F) (inc : Order F) where
  -- A report of a sweep of the levels `ls`, of the incoming order or of the order it meets, the maker: the
  -- maker rests at a level that the incoming order reaches, and a trade is at the price of that level.
  pub record WithinLimit (tick : ℤ) (ls : Levels F) (r : ExecutionReport F) : Type 0 where
    pub level : ℤ
    pub maker : ℕ
    pub resting : RestsAt maker level ls
    pub party : (r.order_id ≡ maker) ⊎ (r.order_id ≡ inc.id)
    pub at_level : trade? r.exec_type ≡ true → r.price ≡ to_price level tick_size
    pub reached : out_of_reach inc.side tick level ≡ false
