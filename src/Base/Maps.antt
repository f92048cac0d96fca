-- ===== src/Base/Maps.antt =====
-- An `std::unordered_map` with integer keys, as an association list in which the first entry of a key
-- is the one that counts, and an `std::unordered_set` of such keys.
pub mod Unique
use Prim.Native.Nat.{ℕ}
use mathlib.Core.Path.{◌≡◌, refl}
use mathlib.Core.Bool.{Bool, true, false, ◌||◌}
use mathlib.Core.List.{List, [], ◌∷◌}
use mathlib.Core.Option.{Option, none, some}
use native.Mathlib.Omega.{arith}
use toy_quant_v.Base.Tests.{◌==◌, if◌then◌else◌}

unfoldable pub contains_key : ℕ → List ℕ → Bool
contains_key k [] = false
contains_key k (j ∷ js) = j == k || contains_key k js

module _ {ℓ} {V : Type ℓ} where
  unfoldable pub lookup : ℕ → List (ℕ × V) → Option V
  lookup key [] = none
  lookup key ((at, value) ∷ rest) =
      let later = lookup key rest in if at == key then some value else later

  -- `map[key] = value`: a new key goes to the end.
  unfoldable pub insert : ℕ → V → List (ℕ × V) → List (ℕ × V)
  insert key value [] = (key, value) ∷ []
  insert key value ((at, old) ∷ rest) =
      let later = insert key value rest in
      if at == key then (at, value) ∷ rest else (at, old) ∷ later

  unfoldable pub erase : ℕ → List (ℕ × V) → List (ℕ × V)
  erase key [] = []
  erase key ((at, old) ∷ rest) =
      let later = erase key rest in if at == key then later else (at, old) ∷ later

  abbrev pub contains : ℕ → List (ℕ × V) → Bool
  contains key entries = elim (lookup key entries) [ none ↦ false | some _ ↦ true ]

  pub lookup-insert :
      (written key : ℕ) (value : V) (entries : List (ℕ × V))
      → lookup key (insert written value entries)
        ≡ (if written == key then some value else lookup key entries)
  unfolding lookup insert
  lookup-insert written key value [] = refl
  lookup-insert written key value (entry ∷ rest) =
      ground (arith, lookup-insert written key value rest)

  pub lookup-erase :
      (gone key : ℕ) (entries : List (ℕ × V))
      → lookup key (erase gone entries) ≡ (if gone == key then none else lookup key entries)
  unfolding lookup erase
  lookup-erase gone key [] = ground arith
  lookup-erase gone key (entry ∷ rest) = ground (arith, lookup-erase gone key rest)
