-- ===== src/Orderbook/Ladder/Top.antt =====
-- `TickLadder::top_levels` (src/orderbook/tick_ladder.h) against the list of the levels.
use toy_quant_v.Base.{
  ℕ, zero, suc, ◌+◌, ◌-◌, ◌%◌, ◌≤◌, ◌<◌, ◌≡◌, ◌≢◌, refl, ap, false, List, [], ◌∷◌, some, arith,
  ◌==◌, if◌then◌else◌, length, add64, u64_mod, take, inl, inr, Option-cases,
}
use toy_quant_v.Orderbook.Ladder.{TickLadder, slot_at}
use toy_quant_v.Orderbook.Ladder.Valid.{IsValid}
use toy_quant_v.Orderbook.Ladder.Walk.{
  TopLevels, count_slot, top_down, top_up, no_levels, top_levels,
}
use toy_quant_v.Orderbook.Ladder.Levels.{
  levels_down, levels_up, ladder_levels, levels_down-suc, levels_up-suc, levels_down-zero,
  levels_up-zero, ladder_levels-best, ladder_levels-none,
}

pub total : List (ℕ × ℕ) → ℕ
total [] = 0
total (x ∷ xs) = x.1 + total xs

-- The first level's tick and quantity, and the quantity of all of them in 64 bits.
unfoldable pub summary : List (ℕ × ℕ) → TopLevels
summary [] = no_levels
summary (x ∷ xs) = record { tick = some x.0; quantity = x.1; depth = total (x ∷ xs) % u64_mod }

abbrev touched : ℕ → ℕ × ℕ → TopLevels → TopLevels
touched found x r = record {
  tick = if found == 0 then some x.0 else r.tick;
  quantity = if found == 0 then x.1 else r.quantity;
  depth = add64 r.depth x.1;
}

-- The levels of a list counted one by one.
counted_on : List (ℕ × ℕ) → ℕ → TopLevels → TopLevels
counted_on [] found r = r
counted_on (x ∷ xs) found r = counted_on xs (found + 1) (touched found x r)

take-cons : (x : ℕ × ℕ) (xs : List (ℕ × ℕ)) (n : ℕ) → 0 < n → take n (x ∷ xs) ≡ x ∷ take (n - 1) xs
take-cons x xs zero h = absurd (omega arith)
take-cons x xs (suc n) h = ground (arith, ap (λ m. take m xs) {x = n} {y = suc n - 1})

take-nil : (n : ℕ) → take {A = ℕ × ℕ} n [] ≡ []
take-nil zero = refl
take-nil (suc n) = refl

counted_on-take :
    (x : ℕ × ℕ) (xs : List (ℕ × ℕ)) (levels found : ℕ) (r : TopLevels)
    → found < levels
    → counted_on (take (levels - found) (x ∷ xs)) found r
      ≡ counted_on (take (levels - (found + 1)) xs) (found + 1) (touched found x r)
unfolding counted_on
counted_on-take x xs levels found r h = ground (
  arith,
  take-cons x xs (levels - found),
  ap (λ n. take n xs) {x = levels - found - 1} {y = levels - (found + 1)},
)

counted_on-full :
    (xs : List (ℕ × ℕ)) (levels found : ℕ) (r : TopLevels)
    → levels ≤ found
    → counted_on (take (levels - found) xs) found r ≡ r
unfolding counted_on
counted_on-full xs levels found r h =
    ground (arith, ap (λ n. take n xs) {x = levels - found} {y = 0})

abbrev level_of : TickLadder → ℕ → ℕ × ℕ
level_of l slot = (l.base + slot, slot_at l.quantity slot)

count_slot-empty :
    (l : TickLadder) (levels slot found : ℕ) (r : TopLevels)
    → slot_at l.quantity slot ≡ 0
    → count_slot l levels slot (found, r) ≡ ((found, r), false)
unfolding count_slot
count_slot-empty l levels slot found r h = ground arith

count_slot-level :
    (l : TickLadder) (levels slot found : ℕ) (r : TopLevels)
    → slot_at l.quantity slot ≢ 0
    → count_slot l levels slot (found, r)
      ≡ ((found + 1, touched found (level_of l slot) r), found + 1 == levels)
unfolding count_slot
count_slot-level l levels slot found r h = ground arith

top_down-counted :
    (l : TickLadder) (levels slot found : ℕ) (r : TopLevels)
    → found < levels
    → (top_down l levels slot (found, r)).1
      ≡ counted_on (take (levels - found) (levels_down l (suc slot))) found r
unfolding top_down counted_on
top_down-counted l levels zero found r h =
    let x = level_of l zero in
    ground (
      arith,
      count_slot-empty l levels zero found r,
      count_slot-level l levels zero found r,
      levels_down-suc l zero,
      levels_down-zero l,
      counted_on-take x [] levels found r h,
      take-nil (levels - found),
      take-nil (levels - (found + 1)),
    )
top_down-counted l levels (suc slot) found r h =
    let x = level_of l (suc slot) in
    let xs = levels_down l (suc slot) in
    ground (
      arith,
      count_slot-empty l levels (suc slot) found r,
      count_slot-level l levels (suc slot) found r,
      levels_down-suc l (suc slot),
      counted_on-take x xs levels found r h,
      counted_on-full xs levels (found + 1) (touched found x r),
      top_down-counted l levels slot found r h,
      top_down-counted l levels slot (found + 1) (touched found x r),
    )

top_up-counted :
    (l : TickLadder) (levels slot n found : ℕ) (r : TopLevels)
    → found < levels
    → (top_up l levels slot n (found, r)).1
      ≡ counted_on (take (levels - found) (levels_up l slot (suc n))) found r
unfolding top_up counted_on
top_up-counted l levels slot zero found r h =
    let x = level_of l slot in
    ground (
      arith,
      count_slot-empty l levels slot found r,
      count_slot-level l levels slot found r,
      levels_up-suc l slot zero,
      levels_up-zero l (suc slot),
      counted_on-take x [] levels found r h,
      take-nil (levels - found),
      take-nil (levels - (found + 1)),
    )
top_up-counted l levels slot (suc n) found r h =
    let x = level_of l slot in
    let xs = levels_up l (suc slot) (suc n) in
    ground (
      arith,
      count_slot-empty l levels slot found r,
      count_slot-level l levels slot found r,
      levels_up-suc l slot (suc n),
      counted_on-take x xs levels found r h,
      counted_on-full xs levels (found + 1) (touched found x r),
      top_up-counted l levels (suc slot) n found r h,
      top_up-counted l levels (suc slot) n (found + 1) (touched found x r),
    )

counted_on-total :
    (xs : List (ℕ × ℕ)) (found : ℕ) (r : TopLevels)
    → r.depth < u64_mod
    → counted_on xs (suc found) r ≡ record r { depth = (r.depth + total xs) % u64_mod }
unfolding counted_on total add64
counted_on-total [] found r h = ground arith
counted_on-total (x ∷ xs) found r h = ground (
  arith,
  counted_on-total xs (found + 1) (record r { depth = add64 r.depth x.1 }),
  ap (λ n. counted_on xs n (record r { depth = add64 r.depth x.1 })) {x = suc found + 1}
      {y = suc (found + 1)},
)

counted_on-summary : (xs : List (ℕ × ℕ)) → counted_on xs 0 no_levels ≡ summary xs
unfolding counted_on total summary add64
counted_on-summary [] = refl
counted_on-summary (x ∷ xs) = ground (arith, counted_on-total xs 0 (touched 0 x no_levels))

-- `top_levels` is right on each ladder whose count and best tick are: it gives the tick and the quantity
-- of the first of the list of all levels, the best first, and the sum of the quantities of the first
-- `levels` of them, modulo 2^64; nothing where there is no level or `levels` is 0.
pub top_levels-summary :
    (levels : ℕ) (l : TickLadder)
    → IsValid l
    → top_levels levels l ≡ summary (take levels (ladder_levels l))
unfolding top_levels summary
top_levels-summary levels l v = elim (Option-cases l.best) [
  | inl e ↦ ground (arith, ladder_levels-none l v e, take-nil levels)
  | inr (best, e) ↦
      let slot = best - l.base in
      let up = length l.quantity - suc slot in
      ground (
        arith,
        ladder_levels-best l best v e,
        top_down-counted l levels slot 0 no_levels,
        top_up-counted l levels slot up 0 no_levels,
        counted_on-summary (take levels (levels_down l (suc slot))),
        counted_on-summary (take levels (levels_up l slot (suc up))),
        ap (λ n. take n (levels_down l (suc slot))) {x = levels - 0} {y = levels},
        ap (λ n. take n (levels_up l slot (suc up))) {x = levels - 0} {y = levels},
        ap (λ n. take n (ladder_levels l)) {x = levels} {y = 0},
      )
]
