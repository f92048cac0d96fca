-- ===== src/Orderbook/Ladder/Lookup.antt =====
-- The ladder as a map from ticks to quantities: `set` writes one tick and nothing else, also when the
-- range grows.
use toy_quant_v.Base.{
  ℕ, ◌+◌, ◌-◌, ◌≤◌, ◌<◌, ◌≡◌, refl, ◌∙◌, arith, leb, ◌==◌, if◌then◌else◌, length, ap, true,
  Bool-cases, inl, inr, dec_lt,
}
use toy_quant_v.Orderbook.Ladder.{
  TickLadder, slot_at, in_range, grow_to_cover, grown_base, grown_slots, set_slot, set_level,
  advance_best_hint,
}
use toy_quant_v.Orderbook.Ladder.Slots.{
  get_or-set, get_or-replicate, get_or-beyond, length-copy_slots, get_or-copy_slots, zeros,
  length-zeros,
}

-- The quantity that the ladder holds at a tick.
unfoldable pub quantity_at : TickLadder → ℕ → ℕ
quantity_at l tick = if leb l.base tick then slot_at l.quantity (tick - l.base) else 0

-- What growth does to the range: it covers the new tick, and the old slots at their offset.
pub record Covers (l : TickLadder) (tick base slots : ℕ) : Type 0 where
  pub from_base : base ≤ tick
  pub to_top : tick - base < slots
  pub old_fits : 0 < length l.quantity → l.base - base + length l.quantity ≤ slots
  pub old_base : 0 < length l.quantity → base ≤ l.base

pub grown-Covers :
    (l : TickLadder) (tick : ℕ) → Covers l tick (grown_base l tick) (grown_slots l tick)
unfolding grown_base grown_slots
grown-Covers l tick = ground arith

pub in_range-Covers :
    (l : TickLadder) (tick : ℕ)
    → in_range l tick ≡ true
    → (l.base ≤ tick) × (tick - l.base < length l.quantity)
unfolding in_range
in_range-Covers l tick h = ground arith

pub in_range-grow_to_cover :
    (l : TickLadder) (tick : ℕ) → in_range (grow_to_cover tick l) tick ≡ true
unfolding grow_to_cover in_range
in_range-grow_to_cover l tick =
    let base = grown_base l tick in
    let slots = grown_slots l tick in
    ground (
      arith,
      grown-Covers l tick,
      length-copy_slots l.quantity (l.base - base) (zeros slots),
      length-zeros slots,
    )

-- Growth loses nothing and invents nothing.
pub quantity_at-grow_to_cover :
    (l : TickLadder) (tick t : ℕ) → quantity_at (grow_to_cover tick l) t ≡ quantity_at l t
unfolding grow_to_cover quantity_at
quantity_at-grow_to_cover l tick t =
    let base = grown_base l tick in
    let slots = grown_slots l tick in
    let c = grown-Covers l tick in
    elim (dec_lt 0 (length l.quantity)) [
      | yes some' ↦ ground (
        arith,
        c.old_fits some',
        c.old_base some',
        length-zeros slots,
        get_or-copy_slots l.quantity (l.base - base) (t - base) (zeros slots),
        get_or-replicate slots (t - base),
        get_or-beyond l.quantity (t - l.base),
        ap (slot_at l.quantity) {x = t - base - (l.base - base)} {y = t - l.base},
      )
      | no empty ↦ ground (
        arith,
        length-zeros slots,
        get_or-copy_slots l.quantity (l.base - base) (t - base) (zeros slots),
        get_or-replicate slots (t - base),
        get_or-beyond l.quantity (t - l.base),
      )
    ]

quantity_at-advance :
    (l : TickLadder) (best t : ℕ) → quantity_at (advance_best_hint best l) t ≡ quantity_at l t
unfolding advance_best_hint quantity_at
quantity_at-advance l best t = refl

pub quantity_at-set_slot :
    (l : TickLadder) (tick q t : ℕ)
    → in_range l tick ≡ true
    → quantity_at (set_slot tick q l) t ≡ (if tick == t then q else quantity_at l t)
unfolding set_slot quantity_at advance_best_hint
quantity_at-set_slot l tick q t h = ground (
  arith,
  in_range-Covers l tick h,
  get_or-set l.quantity (tick - l.base) (t - l.base) q,
  ap (slot_at l.quantity) {x = t - l.base} {y = tick - l.base},
)

-- The ladder is the map that its updates describe: after `set` the tick has the new quantity and each
-- other tick the one that it had, whether or not the range had to grow.
pub quantity_at-set_level :
    (l : TickLadder) (tick q t : ℕ)
    → quantity_at (set_level tick q l) t ≡ (if tick == t then q else quantity_at l t)
unfolding set_level
quantity_at-set_level l tick q t = elim (Bool-cases (in_range l tick)) [
  | inl covered ↦ rw (covered, set_level) (quantity_at-set_slot l tick q t covered)
  | inr outside ↦
      rw (outside, set_level)
        (quantity_at-set_slot (grow_to_cover tick l) tick q t (in_range-grow_to_cover l tick)
          ∙ ap (λ x. if tick == t then q else x) (quantity_at-grow_to_cover l tick t))
]
