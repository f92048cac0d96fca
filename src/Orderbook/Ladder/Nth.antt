-- ===== src/Orderbook/Ladder/Nth.antt =====
-- `TickLadder::nth` (src/orderbook/tick_ladder.h) against the list of the levels.
use toy_quant_v.Base.{
  Option-cases, get_elem?, ℕ, zero, suc, ◌+◌, ◌-◌, ◌≤◌, ◌≡◌, refl, List, [], ◌∷◌, none, some, arith,
  ◌==◌, if◌then◌else◌, length, ap, inl, inr,
}
use toy_quant_v.Orderbook.Ladder.{TickLadder, slot_at}
use toy_quant_v.Orderbook.Ladder.Count.{populated, one_if}
use toy_quant_v.Orderbook.Ladder.Valid.{IsValid}
use toy_quant_v.Orderbook.Ladder.Walk.{nth_down, nth_up, nth}
use toy_quant_v.Orderbook.Ladder.Levels.{
  levels_down, levels_up, ladder_levels, levels_down-suc, levels_up-suc, levels_down-zero,
  levels_up-zero, ladder_levels-best, ladder_levels-none,
}

-- The element that a counting walk is after, where it has passed `found` elements.
get_elem?-cons :
    (x : ℕ × ℕ) (xs : List (ℕ × ℕ)) (j : ℕ)
    → get_elem? (x ∷ xs) j ≡ (if j == 0 then some x else get_elem? xs (j - 1))
get_elem?-cons x xs zero = refl
get_elem?-cons x xs (suc j) = ground (arith, ap (get_elem? xs) {x = j} {y = suc j - 1})

get_elem?-found :
    (x : ℕ × ℕ) (xs : List (ℕ × ℕ)) (i found : ℕ)
    → found ≤ i
    → get_elem? (x ∷ xs) (i - found)
      ≡ (if found == i then some x else get_elem? xs (i - (found + 1)))
get_elem?-found x xs i found h = ground (
  arith,
  get_elem?-cons x xs (i - found),
  ap (get_elem? xs) {x = i - found - 1} {y = i - (found + 1)},
)

pub nth_down-levels :
    (l : TickLadder) (index slot found : ℕ)
    → found ≤ index
    → nth_down l index slot found ≡ get_elem? (levels_down l (suc slot)) (index - found)
unfolding nth_down
nth_down-levels l index zero found h = ground (
  arith,
  levels_down-suc l zero,
  levels_down-zero l,
  get_elem?-found (l.base + zero, slot_at l.quantity zero) (levels_down l zero) index found h,
)
nth_down-levels l index (suc slot) found h = ground (
  arith,
  levels_down-suc l (suc slot),
  nth_down-levels l index slot found h,
  nth_down-levels l index slot (found + 1),
  get_elem?-found (l.base + suc slot, slot_at l.quantity (suc slot)) (levels_down l (suc slot))
      index found h,
)

pub nth_up-levels :
    (l : TickLadder) (index slot n found : ℕ)
    → found ≤ index
    → nth_up l index slot n found ≡ get_elem? (levels_up l slot (suc n)) (index - found)
unfolding nth_up
nth_up-levels l index slot zero found h = ground (
  arith,
  levels_up-suc l slot zero,
  levels_up-zero l (suc slot),
  get_elem?-found (l.base + slot, slot_at l.quantity slot) (levels_up l (suc slot) zero) index found
      h,
)
nth_up-levels l index slot (suc n) found h = ground (
  arith,
  levels_up-suc l slot (suc n),
  nth_up-levels l index (suc slot) n found h,
  nth_up-levels l index (suc slot) n (found + 1),
  get_elem?-found (l.base + slot, slot_at l.quantity slot) (levels_up l (suc slot) (suc n)) index
      found h,
)

length-levels_down :
    (l : TickLadder) (q : ℕ) (qs : List ℕ) (n : ℕ)
    → length (levels_down (record l { quantity = q ∷ qs }) (suc n))
      ≡ length (levels_down (record l { quantity = qs }) n) + one_if q
unfolding levels_down
length-levels_down l q qs zero = ground arith
length-levels_down l q qs (suc n) = ground (arith, length-levels_down l q qs n)

length-levels_up :
    (l : TickLadder) (q : ℕ) (qs : List ℕ) (slot n : ℕ)
    → length (levels_up (record l { quantity = q ∷ qs }) (suc slot) n)
      ≡ length (levels_up (record l { quantity = qs }) slot n)
unfolding levels_up
length-levels_up l q qs slot zero = refl
length-levels_up l q qs slot (suc n) = ground (arith, length-levels_up l q qs (suc slot) n)

populated-levels_down :
    (l : TickLadder) (qs : List ℕ)
    → length (levels_down (record l { quantity = qs }) (length qs)) ≡ populated qs
unfolding populated
populated-levels_down l [] = ground (arith, levels_down-zero (record l { quantity = [] }))
populated-levels_down l (q ∷ qs) =
    ground (arith, length-levels_down l q qs (length qs), populated-levels_down l qs)

populated-levels_up :
    (l : TickLadder) (qs : List ℕ)
    → length (levels_up (record l { quantity = qs }) 0 (length qs)) ≡ populated qs
unfolding populated
populated-levels_up l [] = ground (arith, levels_up-zero (record l { quantity = [] }) 0)
populated-levels_up l (q ∷ qs) = ground (
  arith,
  levels_up-suc (record l { quantity = q ∷ qs }) 0 (length qs),
  length-levels_up l q qs 0 (length qs),
  populated-levels_up l qs,
)

-- The count of the ladder is the length of its list of levels.
pub count-ladder_levels : (l : TickLadder) → IsValid l → length (ladder_levels l) ≡ l.count
unfolding ladder_levels
count-ladder_levels l v =
    ground (arith, v.counted, populated-levels_down l l.quantity, populated-levels_up l l.quantity)

get_elem?-beyond : (xs : List (ℕ × ℕ)) (i : ℕ) → length xs ≤ i → get_elem? xs i ≡ none
get_elem?-beyond [] i h = refl
get_elem?-beyond (x ∷ xs) zero h = absurd (omega arith)
get_elem?-beyond (x ∷ xs) (suc i) h = get_elem?-beyond xs i (omega arith)

-- `nth` gives the level at an index of the list of all populated ticks with their quantities, the best
-- first, and fails exactly past its end, on each ladder whose count and best tick are right.
pub nth-ladder_levels :
    (index : ℕ) (l : TickLadder) → IsValid l → nth index l ≡ get_elem? (ladder_levels l) index
unfolding nth
nth-ladder_levels index l v = elim (Option-cases l.best) [
  | inl e ↦ ground (arith, ladder_levels-none l v e)
  | inr (best, e) ↦
      let slot = best - l.base in
      let up = length l.quantity - suc slot in
      ground (
        arith,
        ladder_levels-best l best v e,
        count-ladder_levels l v,
        get_elem?-beyond (ladder_levels l) index,
        nth_down-levels l index slot 0,
        nth_up-levels l index slot up 0,
        ap (get_elem? (levels_down l (suc slot))) {x = index - 0} {y = index},
        ap (get_elem? (levels_up l slot (suc up))) {x = index - 0} {y = index},
      )
]
