-- ===== src/Orderbook/Ladder/Write.antt =====
-- The branches of `TickLadder::set` (src/orderbook/tick_ladder.h): a level removed, added or changed.
use toy_quant_v.Base.{
  ℕ, ◌+◌, ◌-◌, ◌≡◌, ◌≢◌, refl, ◌∙◌, ap, sym, length-set, Option, none, some, arith, ◌==◌,
  if◌then◌else◌, set, Bool, true, false, Bool-cases, inl, inr, ◌⊎◌, Option-cases,
}
use toy_quant_v.Orderbook.Ladder.{TickLadder, slot_at, in_range, better, improved, is_best}
use toy_quant_v.Orderbook.Ladder.Slots.{get_or-set}
use toy_quant_v.Orderbook.Ladder.Lookup.{quantity_at, in_range-Covers}
use mathlib.Core.Bool.{false≢true}
use toy_quant_v.Orderbook.Ladder.Count.{populated, one_if, populated-set}
use toy_quant_v.Orderbook.Ladder.Valid.{IsValid}
use toy_quant_v.Orderbook.Ladder.Hint.{Emptied}

improved-some : (d : Bool) (tick : ℕ) (o : Option ℕ) → improved d tick o ≢ none
improved-some d tick none h = absurd (cc)
improved-some d tick (some b) h = elim (Bool-cases (better d tick b)) [
  | inl y ↦ ground arith
  | inr n ↦ ground arith
]

-- Where the best tick was `o`: the new one is `tick`, or no worse than it.
improved-Best :
    (d : Bool) (tick : ℕ) (o : Option ℕ) (b : ℕ)
    → improved d tick o ≡ some b
    → (b ≡ tick) × ((o ≡ none) ⊎ ((b0 : ℕ) × (o ≡ some b0) × (better d tick b0 ≡ true)))
      ⊎ (o ≡ some b) × (better d tick b ≡ false)
improved-Best d tick none b h = inl (ground arith, inl refl)
improved-Best d tick (some b0) b h = elim (Bool-cases (better d tick b0)) [
  | inl y ↦ inl (ground arith, inr (b0, refl, y))
  | inr n ↦ inr (ground arith, ground arith)
]

better_trans :
    (d : Bool) (x y z : ℕ) → better d x y ≡ true → better d y z ≡ true → better d x z ≡ true
better_trans true x y z h k = ground arith
better_trans false x y z h k = ground arith

better_irrefl : (d : Bool) (x : ℕ) → better d x x ≡ false
better_irrefl true x = ground arith
better_irrefl false x = ground arith

not_worse : (d : Bool) (b t tick : ℕ) → better d tick b ≡ false → better d t b ≡ true → tick ≢ t
not_worse d b t tick h k e = false≢true (sym h ∙ ap (λ x. better d x b) e ∙ k)

module _ (tick q : ℕ) (l : TickLadder) (v : IsValid l) (covered : in_range l tick ≡ true) where
  abbrev previous : ℕ
  previous = slot_at l.quantity (tick - l.base)

  -- The ladder after `quantity_[slot] = quantity`, with what the branch makes of the count and the best.
  abbrev written : ℕ → Option ℕ → TickLadder
  written n b = record l { quantity = set l.quantity (tick - l.base) q; count = n; best = b }

  quantity_at-written :
      (n : ℕ) (b : Option ℕ) (t : ℕ)
      → quantity_at (written n b) t ≡ (if tick == t then q else quantity_at l t)
  unfolding quantity_at
  quantity_at-written n b t = ground (
    arith,
    in_range-Covers l tick covered,
    get_or-set l.quantity (tick - l.base) (t - l.base) q,
    ap (slot_at l.quantity) {x = t - l.base} {y = tick - l.base},
  )

  previous-quantity_at : previous ≡ quantity_at l tick
  unfolding quantity_at
  previous-quantity_at = ground (arith, in_range-Covers l tick covered)

  populated-written :
      populated (set l.quantity (tick - l.base) q) + one_if previous
      ≡ populated l.quantity + one_if q
  populated-written = populated-set l.quantity (tick - l.base) q (in_range-Covers l tick covered).1

  -- The level is emptied, and was not the best one.
  pub remove-IsValid :
      q ≡ 0 → previous ≢ 0 → is_best l.best tick ≡ false → IsValid (written (l.count - 1) l.best)
  remove-IsValid z p nb =
      let at = quantity_at-written (l.count - 1) l.best in
      record {
        counted = ground (arith, v.counted, populated-written);
        none_best = λ h t. at t ∙ ground (arith, v.none_best h t);
        best_in =
            λ b h e. v.best_in b h (ground (arith, sym (at b) ∙ e, ap (λ o. is_best o tick) h));
        best_top = λ b t h k. at t ∙ ground (arith, v.best_top b t h k);
      }

  pub remove-Emptied :
      q ≡ 0
      → previous ≢ 0
      → is_best l.best tick ≡ true
      → Emptied tick (written (l.count - 1) l.best)
  unfolding in_range
  remove-Emptied z p b =
      let at = quantity_at-written (l.count - 1) l.best in
      record {
        counted = ground (arith, v.counted, populated-written);
        covered = ground (arith, covered, length-set l.quantity (tick - l.base) q);
        gone = at tick ∙ ground arith;
        above = λ t k. at t ∙ elim (Option-cases l.best) [
          | inl e ↦ ground (arith, v.none_best e t)
          | inr (b0, e) ↦ ground (arith, v.best_top b0 t e, ap (λ o. is_best o tick) e)
        ];
      }

  pub add-IsValid :
      q ≢ 0 → previous ≡ 0 → IsValid (written (l.count + 1) (improved l.descending tick l.best))
  add-IsValid nz p =
      let at = quantity_at-written (l.count + 1) (improved l.descending tick l.best) in
      record {
        counted = ground (arith, v.counted, populated-written);
        none_best = λ h t. absurd (improved-some l.descending tick l.best h);
        best_in = λ b h e. elim (improved-Best l.descending tick l.best b h) [
          | inl (here, _) ↦ ground (arith, sym (at b) ∙ e)
          | inr (kept, _) ↦ v.best_in b kept (ground (arith, sym (at b) ∙ e))
        ];
        best_top = λ b t h k. at t ∙ elim (improved-Best l.descending tick l.best b h) [
          | inl (here, inl none') ↦ ground (
            arith,
            v.none_best none' t,
            not_worse l.descending b t tick (rw (here) (better_irrefl l.descending tick)) k,
          )
          | inl (here, inr (b0, e, y)) ↦ ground (
            arith,
            not_worse l.descending b t tick (rw (here) (better_irrefl l.descending tick)) k,
            v.best_top b0 t e (better_trans l.descending t b b0 k (rw (here) y)),
          )
          | inr (kept, worse) ↦
              ground (arith, v.best_top b t kept k, not_worse l.descending b t tick worse k)
        ];
      }

  pub change-IsValid : q ≢ 0 → previous ≢ 0 → IsValid (written l.count l.best)
  change-IsValid nz p =
      let at = quantity_at-written l.count l.best in
      record {
        counted = ground (arith, v.counted, populated-written);
        none_best =
            λ h t. at t ∙ ground (arith, v.none_best h t, v.none_best h tick, previous-quantity_at);
        best_in = λ b h e. ground (arith, sym (at b) ∙ e, v.best_in b h);
        best_top = λ b t h k.
            at t
            ∙ ground (
              arith,
              v.best_top b t h k,
              v.best_top b tick h,
              previous-quantity_at,
              ap (quantity_at l) {x = tick} {y = t},
            );
      }
