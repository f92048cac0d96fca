-- ===== src/Orderbook/Ladder/Valid.antt =====
-- What the ladder's count and best tick (src/orderbook/tick_ladder.h) summarise, in a new ladder, after
-- growth and after `clear`.
use toy_quant_v.Base.{ℕ, ◌-◌, ◌≡◌, ◌≢◌, refl, ◌∙◌, sym, none, some, arith, length, Bool, true}
use toy_quant_v.Orderbook.Ladder.{
  TickLadder, clear, grow_to_cover, grown_base, grown_slots, better, new_ladder,
}
use toy_quant_v.Orderbook.Ladder.Slots.{get_or-replicate, zeros, length-zeros}
use toy_quant_v.Orderbook.Ladder.Lookup.{quantity_at, quantity_at-grow_to_cover, grown-Covers}
use toy_quant_v.Orderbook.Ladder.Count.{
  populated, populated-zero, populated-zeros, populated-copy_slots,
}

pub record IsValid (l : TickLadder) : Type 0 where
  -- `count_` is the number of levels.
  pub counted : l.count ≡ populated l.quantity
  -- There is no best tick only where there is no level.
  pub none_best : l.best ≡ none → (t : ℕ) → quantity_at l t ≡ 0
  -- The best tick has a level, and no better tick has one.
  pub best_in : (b : ℕ) → l.best ≡ some b → quantity_at l b ≢ 0
  pub best_top : (b t : ℕ) → l.best ≡ some b → better l.descending t b ≡ true → quantity_at l t ≡ 0

pub new_ladder-IsValid : (d : Bool) → IsValid (new_ladder d)
unfolding new_ladder populated quantity_at
new_ladder-IsValid d = record {
  counted = refl;
  none_best = λ _ t. ground arith;
  best_in = λ b h. absurd (cc);
  best_top = λ b t h. absurd (cc);
}

pub grow_to_cover-IsValid : (tick : ℕ) (l : TickLadder) → IsValid l → IsValid (grow_to_cover tick l)
unfolding grow_to_cover
grow_to_cover-IsValid tick l v =
    let base = grown_base l tick in
    let slots = grown_slots l tick in
    let same = quantity_at-grow_to_cover l tick in
    record {
      counted = omega (
        arith,
        v.counted,
        populated-zeros slots,
        populated-copy_slots l.quantity (l.base - base) (zeros slots)
            (λ j _. get_or-replicate slots j)
            (λ h. omega (arith, (grown-Covers l tick).old_fits h, length-zeros slots)),
      );
      none_best = λ h t. same t ∙ v.none_best h t;
      best_in = λ b h e. v.best_in b h (sym (same b) ∙ e);
      best_top = λ b t h k. same t ∙ v.best_top b t h k;
    }

-- `clear` leaves an empty ladder: each tick holds nothing, and count and best say so. It keeps the range
-- that the ladder covers, the base and the number of slots, and its side.
pub clear-IsValid :
    (l : TickLadder)
    → IsValid l
    → IsValid (clear l)
      × ((t : ℕ) → quantity_at (clear l) t ≡ 0)
      × ((clear l).base ≡ l.base)
      × (length (clear l).quantity ≡ length l.quantity)
      × ((clear l).descending ≡ l.descending)
unfolding clear quantity_at
clear-IsValid l v =
    let old = λ (slot : ℕ). populated-zero l.quantity slot in
    let cleared = λ (slot : ℕ). get_or-replicate (length l.quantity) slot in
    let gone : (t : ℕ) → quantity_at (clear l) t ≡ 0 =
      λ t. ground (arith, v.counted, old (t - l.base), cleared (t - l.base)) in
    (
      record {
        counted = ground (arith, v.counted, populated-zeros (length l.quantity));
        none_best = λ _. gone;
        best_in = λ b h. absurd (cc);
        best_top = λ b t h. absurd (cc);
      },
      gone,
      refl,
      ground (arith, length-zeros (length l.quantity)),
      refl,
    )
