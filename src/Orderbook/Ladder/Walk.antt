-- ===== src/Orderbook/Ladder/Walk.antt =====
-- The readers of `TickLadder` (src/orderbook/tick_ladder.h): `top_levels` and `nth`, each one walk over
-- the slots from the best one on.
use toy_quant_v.Base.{
  ℕ, zero, suc, ◌+◌, ◌-◌, Bool, false, Option, none, some, leb, ◌==◌, if◌then◌else◌, length, add64,
}
use toy_quant_v.Orderbook.Ladder.{TickLadder, slot_at}

pub record TopLevels : Type 0 where
  pub tick : Option ℕ
  pub quantity : ℕ
  pub depth : ℕ

-- The lambda `count_slot`: the levels found so far and the result, and whether the walk is over.
unfoldable pub count_slot : TickLadder → ℕ → ℕ → ℕ × TopLevels → (ℕ × TopLevels) × Bool
count_slot l levels slot (found, result) =
    let quantity = slot_at l.quantity slot in
    let touch : TopLevels =
      if found == 0
      then record result { tick = some (l.base + slot); quantity = quantity }
      else result in
    if quantity == 0
    then ((found, result), false)
    else ((found + 1, record touch { depth = add64 result.depth quantity }), found + 1 == levels)

unfoldable pub top_down : TickLadder → ℕ → ℕ → ℕ × TopLevels → ℕ × TopLevels
top_down l levels zero state = (count_slot l levels zero state).0
top_down l levels (suc slot) state =
    let (state', full) = count_slot l levels (suc slot) state in
    let rest = top_down l levels slot state' in if full then state' else rest

-- With `n` slots behind `slot`.
unfoldable pub top_up : TickLadder → ℕ → ℕ → ℕ → ℕ × TopLevels → ℕ × TopLevels
top_up l levels slot zero state = (count_slot l levels slot state).0
top_up l levels slot (suc n) state =
    let (state', full) = count_slot l levels slot state in
    let rest = top_up l levels (suc slot) n state' in if full then state' else rest

abbrev pub no_levels : TopLevels
no_levels = record { tick = none; quantity = 0; depth = 0 }

unfoldable pub top_levels : ℕ → TickLadder → TopLevels
top_levels levels l = elim l.best [
  | none ↦ no_levels
  | some best ↦
      let slot = best - l.base in
      let walked =
        if l.descending
        then top_down l levels slot (0, no_levels)
        else top_up l levels slot (length l.quantity - suc slot) (0, no_levels) in
      if levels == 0 then no_levels else walked.1
]

unfoldable pub nth_down : TickLadder → ℕ → ℕ → ℕ → Option (ℕ × ℕ)
nth_down l index zero found =
    if slot_at l.quantity zero == 0
    then none
    else if found == index
    then some (l.base + zero, slot_at l.quantity zero)
    else none
nth_down l index (suc slot) found =
    let next = nth_down l index slot found in
    let after = nth_down l index slot (found + 1) in
    if slot_at l.quantity (suc slot) == 0
    then next
    else if found == index
    then some (l.base + suc slot, slot_at l.quantity (suc slot))
    else after

unfoldable pub nth_up : TickLadder → ℕ → ℕ → ℕ → ℕ → Option (ℕ × ℕ)
nth_up l index slot zero found =
    if slot_at l.quantity slot == 0
    then none
    else if found == index
    then some (l.base + slot, slot_at l.quantity slot)
    else none
nth_up l index slot (suc n) found =
    let next = nth_up l index (suc slot) n found in
    let after = nth_up l index (suc slot) n (found + 1) in
    if slot_at l.quantity slot == 0
    then next
    else if found == index
    then some (l.base + slot, slot_at l.quantity slot)
    else after

-- The tick and the quantity of the level at `index`, `none` for the result `false`.
unfoldable pub nth : ℕ → TickLadder → Option (ℕ × ℕ)
nth index l = elim l.best [
  | none ↦ none
  | some best ↦
      let slot = best - l.base in
      let found =
        if l.descending
        then nth_down l index slot 0
        else nth_up l index slot (length l.quantity - suc slot) 0 in
      if leb l.count index then none else found
]
