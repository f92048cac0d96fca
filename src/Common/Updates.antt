-- ===== src/Common/Updates.antt =====
-- `IncrementalUpdates` (src/common/market_event.h) as the list of what was pushed.
use toy_quant_v.Base.{
  ℕ, zero, suc, ◌+◌, ◌⊎◌, dec_lt, ◌≡◌, ◌≤◌, refl, ap, List, [], ◌∷◌, ◌++◌, length, take, set, arith,
  length-set, ◌<◌, inl, inr,
}
use toy_quant_v.Common.Batch.{
  IncrementalBookUpdate, IncrementalUpdates, inline_capacity, size, data_of, updates_of,
  spill_to_overflow, push_back,
}

-- The array keeps its slots, and the inline ones in use are among them.
pub record IsStored {F : Type 0} (s : IncrementalUpdates F) : Type 0 where
  pub slots : length s.inline_slots ≡ inline_capacity
  pub in_use : s.count ≤ inline_capacity

module _ {F : Type 0} where
  take-set :
      (xs : List (IncrementalBookUpdate F)) (n : ℕ) (u : IncrementalBookUpdate F)
      → n < length xs
      → take (suc n) (set xs n u) ≡ take n xs ++ u ∷ []
  take-set [] n u h = absurd (omega arith)
  take-set (x ∷ xs) zero u h = refl
  take-set (x ∷ xs) (suc n) u h = ap (λ ys. x ∷ ys) (take-set xs n u (omega arith))

  List-cases :
      (xs : List (IncrementalBookUpdate F))
      → (xs ≡ [])
        ⊎ ((x : IncrementalBookUpdate F) × (ys : List (IncrementalBookUpdate F)) × (xs ≡ x ∷ ys))
  List-cases [] = inl refl
  List-cases (x ∷ xs) = inr (x, xs, refl)

  take-all : (xs : List (IncrementalBookUpdate F)) → take (length xs) xs ≡ xs
  take-all [] = refl
  take-all (x ∷ xs) = ap (λ ys. x ∷ ys) (take-all xs)

  -- Pushing keeps the storage in shape and appends to what a walk of the range sees, whether the update
  -- goes into the object, makes it spill into the vector, or goes into the vector.
  pub updates_of-push_back :
      (u : IncrementalBookUpdate F) (s : IncrementalUpdates F)
      → IsStored s
      → IsStored (push_back u s) × (updates_of (push_back u s) ≡ updates_of s ++ u ∷ [])
  unfolding push_back updates_of data_of size spill_to_overflow
  updates_of-push_back u s v =
      let us = s.inline_slots in
      let n = s.count in
      elim (List-cases s.overflow) [
        | inl e ↦ elim (dec_lt n inline_capacity) [
          | yes small ↦ (
            record { slots = ground (arith, length-set us n u); in_use = ground arith },
            ground (
              arith,
              take-set us n u,
              length-set us n u,
              v,
              ap (λ m. take m (set us n u)) {x = n + 1} {y = suc n},
            ),
          )
          | no full ↦ (
            record { slots = ground (arith, v); in_use = ground (arith, v) },
            ground (arith, v, take-all (take n us ++ u ∷ [])),
          )
        ]
        | inr (x, xs, e) ↦ (
          record { slots = ground (arith, v); in_use = ground (arith, v) },
          ground (arith, v, take-all (x ∷ xs), take-all (x ∷ xs ++ u ∷ [])),
        )
      ]
