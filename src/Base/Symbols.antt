-- ===== src/Base/Symbols.antt =====
-- A map whose keys are strings, in which the first entry of a key is the one that counts.
use mathlib.Core.Path.{◌≡◌, refl, ap}
use mathlib.Core.Bool.{true}
use mathlib.Core.List.{List, [], ◌∷◌}
use mathlib.Core.Option.{Option, none, some}
use mathlib.Core.Logic.{inl, inr}
use native.Mathlib.Omega.{arith}
use toy_quant_v.Base.Tests.{Bool-cases, if◌then◌else◌}
use toy_quant_v.Base.Text.{Bytes, bytes_eq, bytes_eq→≡}

bytes_eq_join : (a b c : Bytes) → bytes_eq a c ≡ true → bytes_eq b c ≡ true → bytes_eq a b ≡ true
unfolding bytes_eq
bytes_eq_join [] [] c h k = refl
bytes_eq_join [] (y ∷ b) [] h k = ground arith
bytes_eq_join [] (y ∷ b) (z ∷ c) h k = ground arith
bytes_eq_join (x ∷ a) [] [] h k = ground arith
bytes_eq_join (x ∷ a) [] (z ∷ c) h k = ground arith
bytes_eq_join (x ∷ a) (y ∷ b) [] h k = ground arith
bytes_eq_join (x ∷ a) (y ∷ b) (z ∷ c) h k = ground (arith, bytes_eq_join a b c)

module _ {ℓ} {V : Type ℓ} where
  unfoldable pub entry_of : Bytes → List (Bytes × V) → Option V
  entry_of symbol [] = none
  entry_of symbol ((other, value) ∷ rest) =
      let later = entry_of symbol rest in if bytes_eq other symbol then some value else later

  unfoldable pub put_entry : Bytes → V → List (Bytes × V) → List (Bytes × V)
  put_entry symbol value [] = (symbol, value) ∷ []
  put_entry symbol value ((other, old) ∷ rest) =
      let later = put_entry symbol value rest in
      if bytes_eq other symbol then (other, value) ∷ rest else (other, old) ∷ later

  pub entry_of-put_entry :
      (written read : Bytes) (value : V) (m : List (Bytes × V))
      → entry_of read (put_entry written value m)
        ≡ (if bytes_eq written read then some value else entry_of read m)
  unfolding entry_of put_entry
  entry_of-put_entry written read value [] = refl
  entry_of-put_entry written read value ((other, old) ∷ rest) =
      elim (Bool-cases (bytes_eq other written)) [
        | inl same ↦ ground (arith, ap (λ s. bytes_eq s read) (bytes_eq→≡ other written same))
        | inr differ ↦
            ground
              (arith, entry_of-put_entry written read value rest, bytes_eq_join other written read)
      ]
