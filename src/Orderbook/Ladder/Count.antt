-- ===== src/Orderbook/Ladder/Count.antt =====
-- The number of populated slots, `count_` in src/orderbook/tick_ladder.h, through writes and growth.
use toy_quant_v.Base.{
  ℕ, zero, suc, ◌+◌, ◌≤◌, ◌<◌, ◌≡◌, refl, length-set, List, [], ◌∷◌, arith, ◌==◌, if◌then◌else◌,
  length, set,
}
use toy_quant_v.Orderbook.Ladder.{slot_at, copy_slots}
use toy_quant_v.Orderbook.Ladder.Slots.{get_or-set, zeros}

-- The number of populated slots.
unfoldable pub populated : List ℕ → ℕ
populated [] = 0
populated (q ∷ qs) = (if q == 0 then 0 else 1) + populated qs

abbrev pub one_if : ℕ → ℕ
one_if q = if q == 0 then 0 else 1

pub populated-set :
    (qs : List ℕ) (i v : ℕ)
    → i < length qs
    → populated (set qs i v) + one_if (slot_at qs i) ≡ populated qs + one_if v
unfolding populated
populated-set [] i v h = absurd (omega arith)
populated-set (q ∷ qs) zero v h = ground arith
populated-set (q ∷ qs) (suc i) v h = ground (arith, populated-set qs i v)

pub populated-zero : (qs : List ℕ) (i : ℕ) → populated qs ≡ 0 → slot_at qs i ≡ 0
unfolding populated
populated-zero [] i h = refl
populated-zero (q ∷ qs) zero h = ground arith
populated-zero (q ∷ qs) (suc i) h = ground (arith, populated-zero qs i)

pub populated-zeros : (n : ℕ) → populated (zeros n) ≡ 0
unfolding populated
populated-zeros zero = refl
populated-zeros (suc n) = ground (arith, populated-zeros n)

pub populated-copy_slots :
    (qs : List ℕ) (i : ℕ) (g : List ℕ)
    → ((j : ℕ) → i ≤ j → slot_at g j ≡ 0)
    → (0 < length qs → i + length qs ≤ length g)
    → populated (copy_slots qs i g) ≡ populated g + populated qs
unfolding populated copy_slots
populated-copy_slots [] i g z h = omega arith
populated-copy_slots (q ∷ qs) i g z h =
    let fits = h (omega arith) in
    ground (
      arith,
      populated-set g i q,
      z i,
      populated-copy_slots qs (suc i) (set g i q)
          (λ j k. let e = get_or-set g i j q (omega arith) in ground (arith, z j))
          (λ _. omega (arith, length-set g i q)),
    )
