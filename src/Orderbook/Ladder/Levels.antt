-- ===== src/Orderbook/Ladder/Levels.antt =====
-- The levels of a ladder as a list, the best first, and the walks of src/orderbook/tick_ladder.h
-- against it.
use toy_quant_v.Base.{
  ℕ, zero, suc, ◌+◌, ◌-◌, ◌≤◌, ◌<◌, ◌≡◌, ◌≢◌, refl, ◌∙◌, Bool, true, false, List, [], ◌∷◌, none,
  some, arith, ◌==◌, if◌then◌else◌, length, ap, Bool-cases, inl, inr,
}
use toy_quant_v.Orderbook.Ladder.{TickLadder, slot_at, better}
use toy_quant_v.Orderbook.Ladder.Slots.{get_or-beyond}
use toy_quant_v.Orderbook.Ladder.Lookup.{quantity_at}
use toy_quant_v.Orderbook.Ladder.Valid.{IsValid}

-- The levels in the slots below `n`, from the top down.
unfoldable pub levels_down : TickLadder → ℕ → List (ℕ × ℕ)
levels_down l zero = []
levels_down l (suc n) =
    let rest = levels_down l n in
    let q = slot_at l.quantity n in if q == 0 then rest else (l.base + n, q) ∷ rest

-- The levels in `n` slots from `slot` up.
unfoldable pub levels_up : TickLadder → ℕ → ℕ → List (ℕ × ℕ)
levels_up l slot zero = []
levels_up l slot (suc n) =
    let rest = levels_up l (suc slot) n in
    let q = slot_at l.quantity slot in if q == 0 then rest else (l.base + slot, q) ∷ rest

pub levels_down-zero : (l : TickLadder) → levels_down l zero ≡ []
unfolding levels_down
levels_down-zero l = refl

pub levels_up-zero : (l : TickLadder) (slot : ℕ) → levels_up l slot zero ≡ []
unfolding levels_up
levels_up-zero l slot = refl

-- All levels, the best first.
unfoldable pub ladder_levels : TickLadder → List (ℕ × ℕ)
ladder_levels l =
    if l.descending then levels_down l (length l.quantity) else levels_up l 0 (length l.quantity)

pub levels_down-suc :
    (l : TickLadder) (n : ℕ)
    → levels_down l (suc n) ≡ (
        if slot_at l.quantity n == 0
        then levels_down l n
        else (l.base + n, slot_at l.quantity n) ∷ levels_down l n)
unfolding levels_down
levels_down-suc l n = refl

pub levels_up-suc :
    (l : TickLadder) (slot n : ℕ)
    → levels_up l slot (suc n) ≡ (
        if slot_at l.quantity slot == 0
        then levels_up l (suc slot) n
        else (l.base + slot, slot_at l.quantity slot) ∷ levels_up l (suc slot) n)
unfolding levels_up
levels_up-suc l slot n = refl

-- Where the slots from `n` on are empty, the walk may start at any of them.
pub levels_down-empty :
    (l : TickLadder) (n k : ℕ)
    → ((i : ℕ) → n ≤ i → i < n + k → slot_at l.quantity i ≡ 0)
    → levels_down l (n + k) ≡ levels_down l n
levels_down-empty l n zero z = ground arith
levels_down-empty l n (suc k) z = ground (
  arith,
  levels_down-suc l (n + k),
  z (n + k),
  levels_down-empty l n k (λ i a b. z i a (omega arith)),
)

pub levels_up-empty :
    (l : TickLadder) (slot k n : ℕ)
    → ((i : ℕ) → slot ≤ i → i < slot + k → slot_at l.quantity i ≡ 0)
    → levels_up l slot (k + n) ≡ levels_up l (slot + k) n
levels_up-empty l slot zero n z = ground arith
levels_up-empty l slot (suc k) n z = ground (
  arith,
  levels_up-suc l slot (k + n),
  z slot,
  levels_up-empty l (suc slot) k n (λ i a b. z i (omega arith) (omega arith)),
)

pub slot_at-quantity_at :
    (l : TickLadder) (i : ℕ) → slot_at l.quantity i ≡ quantity_at l (l.base + i)
unfolding quantity_at
slot_at-quantity_at l i = ground (arith, ap (slot_at l.quantity) {x = l.base + i - l.base} {y = i})

in_slots :
    (l : TickLadder) (b : ℕ) → quantity_at l b ≢ 0 → (l.base ≤ b) × (b - l.base < length l.quantity)
unfolding quantity_at
in_slots l b h = ground (arith, get_or-beyond l.quantity (b - l.base))

worse_above :
    (l : TickLadder) (best i : ℕ)
    → IsValid l
    → l.best ≡ some best
    → better l.descending (l.base + i) best ≡ true
    → slot_at l.quantity i ≡ 0
worse_above l best i v e b = slot_at-quantity_at l i ∙ v.best_top best (l.base + i) e b

better_down : (d : Bool) (x y : ℕ) → d ≡ true → y < x → better d x y ≡ true
better_down true x y d h = ground arith
better_down false x y d h = absurd (cc)

better_up : (d : Bool) (x y : ℕ) → d ≡ false → x < y → better d x y ≡ true
better_up false x y d h = ground arith
better_up true x y d h = absurd (cc)

-- The walk from the best slot sees all levels.
pub ladder_levels-best :
    (l : TickLadder) (best : ℕ)
    → IsValid l
    → l.best ≡ some best
    → ladder_levels l ≡ (
        if l.descending
        then levels_down l (suc (best - l.base))
        else levels_up l (best - l.base) (suc (length l.quantity - suc (best - l.base))))
unfolding ladder_levels
ladder_levels-best l best v e =
    let slot = best - l.base in
    let slots = in_slots l best (v.best_in best e) in
    elim (Bool-cases l.descending) [
      | inl down ↦ rw down (
          ground (
            arith,
            slots,
            levels_down-empty l (suc slot) (length l.quantity - suc slot) (λ i a b.
                worse_above l best i v e
                  (better_down l.descending (l.base + i) best down (omega (arith, slots, a)))),
            ap (levels_down l) {x = suc slot + (length l.quantity - suc slot)}
                {y = length l.quantity},
          ))
      | inr up ↦ rw up (
          ground (
            arith,
            slots,
            levels_up-empty l 0 slot (suc (length l.quantity - suc slot)) (λ i a b.
                worse_above l best i v e
                  (better_up l.descending (l.base + i) best up (omega (arith, slots, b)))),
            ap (levels_up l 0) {x = slot + suc (length l.quantity - suc slot)}
                {y = length l.quantity},
            ap (λ x. levels_up l x (suc (length l.quantity - suc slot))) {x = 0 + slot} {y = slot},
          ))
    ]

pub ladder_levels-none : (l : TickLadder) → IsValid l → l.best ≡ none → ladder_levels l ≡ []
unfolding ladder_levels
ladder_levels-none l v e =
    let empty = λ (i : ℕ). slot_at-quantity_at l i ∙ v.none_best e (l.base + i) in
    ground (
      arith,
      levels_down-empty l 0 (length l.quantity) (λ i _ _. empty i),
      levels_up-empty l 0 (length l.quantity) 0 (λ i _ _. empty i),
      levels_down-zero l,
      levels_up-zero l (0 + length l.quantity),
      ap (levels_down l) {x = 0 + length l.quantity} {y = length l.quantity},
      ap (levels_up l 0) {x = length l.quantity + 0} {y = length l.quantity},
    )
