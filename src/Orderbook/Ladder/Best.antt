-- ===== src/Orderbook/Ladder/Best.antt =====
-- `TickLadder::set` (src/orderbook/tick_ladder.h): the count and the best tick after it.
use toy_quant_v.Base.{
  ℕ, ◌-◌, ◌≡◌, ◌≢◌, refl, arith, ◌==◌, if◌then◌else◌, Bool, true, false, Bool-cases, inl, inr,
}
use toy_quant_v.Orderbook.Ladder.{
  TickLadder, slot_at, in_range, set_slot, set_level, grow_to_cover, is_best,
}
use toy_quant_v.Orderbook.Ladder.Lookup.{in_range-grow_to_cover}
use toy_quant_v.Orderbook.Ladder.Valid.{IsValid, grow_to_cover-IsValid}
use toy_quant_v.Orderbook.Ladder.Hint.{advance-IsValid}
use toy_quant_v.Orderbook.Ladder.Write.{remove-IsValid, remove-Emptied, add-IsValid, change-IsValid}

abbrev if-IsValid :
    (c : Bool) (x y : TickLadder)
    → (c ≡ true → IsValid x)
    → (c ≡ false → IsValid y)
    → IsValid (if c then x else y)
if-IsValid true x y f g = f refl
if-IsValid false x y f g = g refl

==-false : (m n : ℕ) → (m == n) ≡ false → m ≢ n
==-false m n h = ground arith

set_slot-IsValid :
    (tick q : ℕ) (l : TickLadder) → IsValid l → in_range l tick ≡ true → IsValid (set_slot tick q l)
unfolding set_slot
set_slot-IsValid tick q l v covered =
    let old = slot_at l.quantity (tick - l.base) in
    if-IsValid (old == q) _ _ (λ _. v)
      (λ differs.
        if-IsValid (q == 0) _ _
          (λ emptied.
            let z : q ≡ 0 = ground arith in
            let p : old ≢ 0 = ground arith in
            if-IsValid (is_best l.best tick) _ _
              (λ b. advance-IsValid tick _ (remove-Emptied tick q l v covered z p b))
              (λ nb. remove-IsValid tick q l v covered z p nb))
          (λ filled.
            if-IsValid (old == 0) _ _
              (λ new. add-IsValid tick q l v covered (==-false q 0 filled) (ground arith))
              (λ there.
                change-IsValid tick q l v covered (==-false q 0 filled) (==-false old 0 there))))

-- `set` keeps the ladder's two summaries right: where the count is the number of populated slots and
-- the best tick is the best of the ticks that hold a quantity (none where there is none), they still are
-- after it, whether the level is added, changed or removed, the best one included, and also when the
-- range had to grow.
pub set_level-IsValid : (tick q : ℕ) (l : TickLadder) → IsValid l → IsValid (set_level tick q l)
unfolding set_level
set_level-IsValid tick q l v = elim (Bool-cases (in_range l tick)) [
  | inl covered ↦ rw (covered) (set_slot-IsValid tick q l v covered)
  | inr outside ↦ rw (outside) (
      set_slot-IsValid tick q (grow_to_cover tick l) (grow_to_cover-IsValid tick l v)
        (in_range-grow_to_cover l tick))
]
