-- ===== src/Orderbook/Ladder/Slots.antt =====
-- Reads of the slots after a write, a copy, and a scan.
use toy_quant_v.Base.{
  ℕ, zero, suc, ◌+◌, ◌-◌, ◌≤◌, ◌<◌, ◌≡◌, refl, ◌≢◌, List, [], ◌∷◌, Option, none, some, arith, ltb,
  leb, ◌==◌, if◌then◌else◌, length, set, replicate, length-set, length-replicate, ◌&&◌, ap,
}
use toy_quant_v.Orderbook.Ladder.{slot_at, copy_slots, scan_down, scan_up}

pub get_or-set :
    (qs : List ℕ) (i j v : ℕ)
    → i < length qs
    → slot_at (set qs i v) j ≡ (if i == j then v else slot_at qs j)
get_or-set [] i j v h = absurd (omega arith)
get_or-set (q ∷ qs) zero zero v h = ground arith
get_or-set (q ∷ qs) zero (suc j) v h = ground arith
get_or-set (q ∷ qs) (suc i) zero v h = ground arith
get_or-set (q ∷ qs) (suc i) (suc j) v h = ground (arith, get_or-set qs i j v)

pub get_or-replicate : (n j : ℕ) → slot_at (replicate n 0) j ≡ 0
get_or-replicate zero j = refl
get_or-replicate (suc n) zero = refl
get_or-replicate (suc n) (suc j) = get_or-replicate n j

abbrev pub zeros : ℕ → List ℕ
zeros n = replicate n 0

pub length-zeros : (n : ℕ) → length (zeros n) ≡ n
length-zeros n = length-replicate n 0

pub get_or-beyond : (qs : List ℕ) (j : ℕ) → length qs ≤ j → slot_at qs j ≡ 0
get_or-beyond [] j h = refl
get_or-beyond (q ∷ qs) zero h = absurd (omega arith)
get_or-beyond (q ∷ qs) (suc j) h = get_or-beyond qs j (omega arith)

pub length-copy_slots : (qs : List ℕ) (i : ℕ) (g : List ℕ) → length (copy_slots qs i g) ≡ length g
unfolding copy_slots
length-copy_slots [] i g = refl
length-copy_slots (q ∷ qs) i g =
    omega (arith, length-copy_slots qs (suc i) (set g i q), length-set g i q)

get_or-cons :
    (q : ℕ) (qs : List ℕ) (k : ℕ) → slot_at (q ∷ qs) k ≡ (if k == 0 then q else slot_at qs (k - 1))
get_or-cons q qs zero = refl
get_or-cons q qs (suc k) = ground (arith, ap (slot_at qs) (back k))
  where
    back : (k : ℕ) → suc k - 1 ≡ k
    back k = omega arith

shift : (i j : ℕ) → j - i - 1 ≡ j - suc i
shift i j = omega arith

pub get_or-copy_slots :
    (qs : List ℕ) (i j : ℕ) (g : List ℕ)
    → (0 < length qs → i + length qs ≤ length g)
    → slot_at (copy_slots qs i g) j
      ≡ (if leb i j && ltb j (i + length qs) then slot_at qs (j - i) else slot_at g j)
unfolding copy_slots
get_or-copy_slots [] i j g h = ground arith
get_or-copy_slots (q ∷ qs) i j g h = ground (
  arith,
  h (omega arith),
  get_or-copy_slots qs (suc i) j (set g i q),
  get_or-set g i j q,
  length-set g i q,
  get_or-cons q qs (j - i),
  ap (slot_at qs) (shift i j),
)

-- A scan finds the nearest populated slot, and nothing only if there is none.
pub record Nearest (qs : List ℕ) (passed : ℕ → ℕ → Type 0) (lies : ℕ → Type 0) (found : Option ℕ)
    : Type 0 where
  pub hit : (j : ℕ) → found ≡ some j → lies j × (slot_at qs j ≢ 0)
  pub passed_over : (j k : ℕ) → found ≡ some j → passed j k → slot_at qs k ≡ 0
  pub missed : (k : ℕ) → found ≡ none → lies k → slot_at qs k ≡ 0

pub scan_down-Nearest :
    (qs : List ℕ) (slot : ℕ)
    → Nearest qs (λ j k. (j < k) × (k < slot)) (λ j. j < slot) (scan_down qs slot)
unfolding scan_down
scan_down-Nearest qs zero = record {
  hit = λ j h. absurd (cc);
  passed_over = λ j k h. absurd (cc);
  missed = λ k h l. absurd (omega arith);
}
scan_down-Nearest qs (suc slot) =
    let ih = scan_down-Nearest qs slot in
    record {
      hit = λ j h. ground (arith, ih.hit j);
      passed_over =
          λ j k h p. ground (arith, ih.passed_over j k, ap (slot_at qs) {x = k} {y = slot});
      missed = λ k h l. ground (arith, ih.missed k);
    }

pub scan_up-Nearest :
    (qs : List ℕ) (slot n : ℕ)
    → Nearest qs
        (λ j k. (slot < k) × (k < j))
        (λ j. (slot < j) × (j ≤ slot + n))
        (scan_up qs slot n)
unfolding scan_up
scan_up-Nearest qs slot zero = record {
  hit = λ j h. absurd (cc);
  passed_over = λ j k h. absurd (cc);
  missed = λ k h l. absurd (omega arith);
}
scan_up-Nearest qs slot (suc n) =
    let ih = scan_up-Nearest qs (suc slot) n in
    record {
      hit = λ j h. ground (arith, ih.hit j);
      passed_over =
          λ j k h p. ground (arith, ih.passed_over j k, ap (slot_at qs) {x = k} {y = suc slot});
      missed = λ k h l. ground (arith, ih.missed k, ap (slot_at qs) {x = k} {y = suc slot});
    }
