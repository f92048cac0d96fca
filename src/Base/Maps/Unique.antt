-- ===== src/Base/Maps/Unique.antt =====
-- Maps in which each key stands once, and how many entries they have.
use toy_quant_v.Base.{ℕ, ◌+◌, ◌≡◌, refl, List, [], ◌∷◌, Option, none, some, arith, length}
use toy_quant_v.Base.Maps.{lookup, insert, erase, lookup-insert, lookup-erase}

module _ {ℓ} {V : Type ℓ} where
  abbrev pub Unique : List (ℕ × V) → Type ℓ
  Unique [] = Unit
  Unique ((k, v) ∷ m) = (lookup k m ≡ none) × Unique m

  pub insert-Unique : (k : ℕ) (v : V) (m : List (ℕ × V)) → Unique m → Unique (insert k v m)
  unfolding insert lookup
  insert-Unique k v [] u = ground arith
  insert-Unique k v ((j, w) ∷ m) u = ground (arith, insert-Unique k v m u.1, lookup-insert k j v m)

  pub erase-Unique : (k : ℕ) (m : List (ℕ × V)) → Unique m → Unique (erase k m)
  unfolding erase
  erase-Unique k [] u = tt
  erase-Unique k ((j, w) ∷ m) u = ground (arith, erase-Unique k m u.1, lookup-erase k j m)

  -- How many entries a key has, in a map with unique keys.
  abbrev pub held : Option V → ℕ
  held none = 0
  held (some v) = 1

  pub length-insert :
      (k : ℕ) (v : V) (m : List (ℕ × V)) → length (insert k v m) + held (lookup k m) ≡ length m + 1
  unfolding insert lookup
  length-insert k v [] = refl
  length-insert k v ((j, w) ∷ m) = ground (arith, length-insert k v m)

  pub length-erase :
      (k : ℕ) (m : List (ℕ × V)) → Unique m → length (erase k m) + held (lookup k m) ≡ length m
  unfolding erase lookup
  length-erase k [] u = refl
  length-erase k ((j, w) ∷ m) u = ground (arith, length-erase k m u.1)
