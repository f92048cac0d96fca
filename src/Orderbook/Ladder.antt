-- ===== src/Orderbook/Ladder.antt =====
-- `TickLadder` (src/orderbook/tick_ladder.h, tick_ladder.cpp). `L2OrderBook` hands it positive ticks
-- only, so a tick is a natural number, and `kNoBest` (-1) is `none`. Ticks stay far below 2^63 and the
-- vector's size below 2^64, so no sum here wraps; `count_` is decremented only while a level is there.
pub mod Slots
pub mod Lookup
pub mod Count
pub mod Valid
pub mod Hint
pub mod Write
pub mod Best
pub mod Walk
pub mod Levels
pub mod Nth
pub mod Top
use toy_quant_v.Base.{
  ℕ, zero, suc, ◌+◌, ◌-◌, ◌/◌, min, max, Bool, true, false, not, ◌&&◌, List, [], ◌∷◌, Option, none,
  some, ltb, leb, ◌==◌, if◌then◌else◌, length, get_or, set, replicate,
}

pub record TickLadder : Type 0 where
  pub descending : Bool
  pub base : ℕ
  pub count : ℕ
  pub quantity : List ℕ
  pub best : Option ℕ

unfoldable pub new_ladder : Bool → TickLadder
new_ladder descending = record {
  descending = descending;
  base = 0;
  count = 0;
  quantity = [];
  best = none;
}

unfoldable pub in_range : TickLadder → ℕ → Bool
in_range l tick = leb l.base tick && ltb (tick - l.base) (length l.quantity)

-- `quantity_[slot]`; a slot past the end is never read.
abbrev pub slot_at : List ℕ → ℕ → ℕ
slot_at qs slot = get_or qs slot 0

abbrev pub initial_slots : ℕ
initial_slots = 2048

abbrev pub growth_margin : ℕ
growth_margin = 1024

-- `grown[slot + offset] = quantity_[slot]`, from the slot at `i` on.
unfoldable pub copy_slots : List ℕ → ℕ → List ℕ → List ℕ
copy_slots [] i grown = grown
copy_slots (q ∷ qs) i grown = copy_slots qs (suc i) (set grown i q)

-- The new base and the new number of slots. The source computes a base that may be negative, and then
-- adds what is missing to the slots: `b - 1024` on ℕ stops at 0, and `1024 - b` is what is missing.
unfoldable pub grown_base : TickLadder → ℕ → ℕ
grown_base l tick = elim l.quantity [
  | [] ↦ tick - initial_slots / 2
  | _ ↦ min l.base tick - growth_margin
]

unfoldable pub grown_slots : TickLadder → ℕ → ℕ
grown_slots l tick = elim l.quantity [
  | [] ↦ initial_slots + (initial_slots / 2 - tick)
  | q ∷ qs ↦
      let low = min l.base tick in
      let new_top = max (l.base + length (q ∷ qs)) (tick + 1) + growth_margin in
      new_top + growth_margin - low + (growth_margin - low)
]

unfoldable pub grow_to_cover : ℕ → TickLadder → TickLadder
grow_to_cover tick l =
    let new_base = grown_base l tick in
    record l {
      base = new_base;
      quantity = copy_slots l.quantity (l.base - new_base) (replicate (grown_slots l tick) 0);
    }

-- `while (slot > 0) { --slot; ... }`
unfoldable pub scan_down : List ℕ → ℕ → Option ℕ
scan_down qs zero = none
scan_down qs (suc slot) =
    let rest = scan_down qs slot in if slot_at qs slot == 0 then rest else some slot

-- `while (++slot < slots)`, with `n` slots behind `slot`.
unfoldable pub scan_up : List ℕ → ℕ → ℕ → Option ℕ
scan_up qs slot zero = none
scan_up qs slot (suc n) =
    let rest = scan_up qs (suc slot) n in
    if slot_at qs (suc slot) == 0 then rest else some (suc slot)

abbrev pub slot_tick : ℕ → Option ℕ → Option ℕ
slot_tick base none = none
slot_tick base (some slot) = some (base + slot)

-- From the slot of `best`, which was emptied.
unfoldable pub advance_best_hint : ℕ → TickLadder → TickLadder
advance_best_hint best l =
    let slot = best - l.base in
    let next =
      if l.descending
      then scan_down l.quantity slot
      else scan_up l.quantity slot (length l.quantity - suc slot) in
    record l { best = if l.count == 0 then none else slot_tick l.base next }

abbrev pub is_best : Option ℕ → ℕ → Bool
is_best none tick = false
is_best (some b) tick = b == tick

-- `descending_ ? tick > best_ : tick < best_`
abbrev pub better : Bool → ℕ → ℕ → Bool
better true tick best = ltb best tick
better false tick best = ltb tick best

abbrev pub improved : Bool → ℕ → Option ℕ → Option ℕ
improved descending tick none = some tick
improved descending tick (some b) = if better descending tick b then some tick else some b

-- `set` on a ladder that covers `tick`.
unfoldable pub set_slot : ℕ → ℕ → TickLadder → TickLadder
set_slot tick quantity l =
    let slot = tick - l.base in
    let previous = slot_at l.quantity slot in
    let written = record l { quantity = set l.quantity slot quantity } in
    let removed = record written { count = l.count - 1 } in
    if previous == quantity
    then l
    else if quantity == 0
    then if is_best l.best tick then advance_best_hint tick removed else removed
    else if previous == 0
    then record written { count = l.count + 1; best = improved l.descending tick l.best }
    else written

unfoldable pub set_level : ℕ → ℕ → TickLadder → TickLadder
set_level tick quantity l =
    set_slot tick quantity (if in_range l tick then l else grow_to_cover tick l)

unfoldable pub clear : TickLadder → TickLadder
clear l = record l {
  quantity = if ltb 0 l.count then replicate (length l.quantity) 0 else l.quantity;
  count = 0;
  best = none;
}
