-- ===== src/Orderbook/Ladder/Hint.antt =====
-- `advance_best_hint` (src/orderbook/tick_ladder.cpp): it finds the next best tick.
use toy_quant_v.Base.{ℕ, suc, ◌-◌, ◌≡◌, ap, arith, length, true, false, Bool-cases, inl, inr}
use toy_quant_v.Orderbook.Ladder.{TickLadder, in_range, advance_best_hint, better}
use toy_quant_v.Orderbook.Ladder.Slots.{get_or-beyond, scan_down-Nearest, scan_up-Nearest}
use toy_quant_v.Orderbook.Ladder.Lookup.{quantity_at, in_range-Covers}
use toy_quant_v.Orderbook.Ladder.Count.{populated, populated-zero}
use toy_quant_v.Orderbook.Ladder.Valid.{IsValid}

-- After the best level was emptied: `tick` and all that is better than it hold nothing.
pub record Emptied (tick : ℕ) (l : TickLadder) : Type 0 where
  pub counted : l.count ≡ populated l.quantity
  pub covered : in_range l tick ≡ true
  pub gone : quantity_at l tick ≡ 0
  pub above : (t : ℕ) → better l.descending t tick ≡ true → quantity_at l t ≡ 0

quantity_at-eq : (l : TickLadder) (t u : ℕ) → t ≡ u → quantity_at l t ≡ quantity_at l u
quantity_at-eq l t u e = ap (quantity_at l) e

-- The next best tick, at the distance that the scan found.
advance_down-IsValid :
    (tick : ℕ) (l : TickLadder)
    → l.descending ≡ true
    → Emptied tick l
    → IsValid (advance_best_hint tick l)
unfolding advance_best_hint quantity_at
advance_down-IsValid tick l down e =
    let slot = tick - l.base in
    let near = scan_down-Nearest l.quantity slot in
    let range = in_range-Covers l tick e.covered in
    let empty = λ (t : ℕ). populated-zero l.quantity (t - l.base) in
    record {
      counted = e.counted;
      none_best = λ h t. ground (
        arith,
        e.counted,
        empty t,
        e.gone,
        e.above t,
        near.missed (t - l.base),
        quantity_at-eq l t tick,
      );
      best_in = λ b h. ground (arith, near.hit (b - l.base));
      best_top = λ b t h k. ground (
        arith,
        e.gone,
        e.above t,
        near.passed_over (b - l.base) (t - l.base),
        quantity_at-eq l t tick,
      );
    }

advance_up-IsValid :
    (tick : ℕ) (l : TickLadder)
    → l.descending ≡ false
    → Emptied tick l
    → IsValid (advance_best_hint tick l)
unfolding advance_best_hint quantity_at
advance_up-IsValid tick l up e =
    let slot = tick - l.base in
    let near = scan_up-Nearest l.quantity slot (length l.quantity - suc slot) in
    let range = in_range-Covers l tick e.covered in
    record {
      counted = e.counted;
      none_best = λ h t. ground (
        arith,
        e.counted,
        range,
        populated-zero l.quantity (t - l.base),
        get_or-beyond l.quantity (t - l.base),
        e.gone,
        e.above t,
        near.missed (t - l.base),
        quantity_at-eq l t tick,
      );
      best_in = λ b h. ground (arith, near.hit (b - l.base));
      best_top = λ b t h k. ground (
        arith,
        range,
        e.gone,
        e.above t,
        near.hit (b - l.base),
        near.passed_over (b - l.base) (t - l.base),
        quantity_at-eq l t tick,
      );
    }

pub advance-IsValid :
    (tick : ℕ) (l : TickLadder) → Emptied tick l → IsValid (advance_best_hint tick l)
advance-IsValid tick l e = elim (Bool-cases l.descending) [
  | inl down ↦ advance_down-IsValid tick l down e
  | inr up ↦ advance_up-IsValid tick l up e
]
