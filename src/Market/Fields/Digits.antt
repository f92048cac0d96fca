-- ===== src/Market/Fields/Digits.antt =====
-- `parse_uint64` of src/market/field_parser.h against a reading of one digit at a time.
use toy_quant_v.Base.{
  ℕ, zero, suc, ap, ◌∙◌, Bool-cases, inl, inr, ◌+◌, ◌-◌, ◌*◌, ◌%◌, ◌≤◌, ◌<◌, ◌≡◌, refl, true, false,
  not, ◌&&◌, [], ◌∷◌, Option, none, some, arith, ltb, leb, ◌==◌, if◌then◌else◌, Bytes, length,
  u64_mod,
}
use toy_quant_v.Market.Fields.{digit_of, parse_pairs, parse_digits, parse_uint64}

-- The decimal value of a text of digits, over the numbers without a bound.
unfoldable pub decimal_from : ℕ → Bytes → Option ℕ
decimal_from value [] = some value
decimal_from value (c ∷ cs) =
    let rest = decimal_from (value * 10 + (c - 48)) cs in
    if leb 48 c && leb c 57 then rest else none

-- A byte.
abbrev pub AreBytes : Bytes → Type 0
AreBytes [] = Unit
AreBytes (c ∷ cs) = (c < 256) × AreBytes cs

-- `limit` with a digit more for each character.
abbrev room : ℕ → Bytes → ℕ
room limit [] = limit
room limit (c ∷ cs) = room (limit * 10) cs

room-le : (limit : ℕ) (cs : Bytes) → limit ≤ room limit cs
room-le limit [] = omega arith
room-le limit (c ∷ cs) = let h = room-le (limit * 10) cs in omega (arith, h)

abbrev scale : ℕ → ℕ → ℕ
scale zero limit = limit
scale (suc k) limit = scale k (limit * 10)

scale-le : (k limit : ℕ) → limit ≤ scale k limit
scale-le zero limit = omega arith
scale-le (suc k) limit = let h = scale-le k (limit * 10) in omega (arith, h)

room-scale : (k limit : ℕ) (cs : Bytes) → length cs ≤ k → room limit cs ≤ scale k limit
room-scale k limit [] h = scale-le k limit
room-scale zero limit (c ∷ cs) h = ground arith
room-scale (suc k) limit (c ∷ cs) h = room-scale k (limit * 10) cs (ground arith)

digit_of-exact : (c : ℕ) → c < 256 → ltb 9 (digit_of c) ≡ not (leb 48 c && leb c 57)
unfolding digit_of
digit_of-exact c h = ground arith

digit_of-digit : (c : ℕ) → (leb 48 c && leb c 57) ≡ true → digit_of c ≡ c - 48
unfolding digit_of
digit_of-digit c h = ground arith

pair-even : (c d : ℕ) (cs : Bytes) → length (c ∷ d ∷ cs) % 2 ≡ 0 → length cs % 2 ≡ 0
pair-even c d cs h = ground arith

odd-even : (c : ℕ) (cs : Bytes) → (length (c ∷ cs) % 2 == 0) ≡ false → length cs % 2 ≡ 0
odd-even c cs h = ground arith

pair-less :
    (value limit c d : ℕ)
    → (leb 48 c && leb c 57) ≡ true
    → (leb 48 d && leb d 57) ≡ true
    → value < limit
    → value * 100 + (c - 48) * 10 + (d - 48) < limit * 10 * 10
pair-less value limit c d is_c is_d h = ground arith

pair-exact :
    (value limit c d : ℕ)
    → (leb 48 c && leb c 57) ≡ true
    → (leb 48 d && leb d 57) ≡ true
    → digit_of c ≡ c - 48
    → digit_of d ≡ d - 48
    → value < limit
    → limit * 10 * 10 ≤ 1_000_000_000_000_000_000
    → (value * 100 + digit_of c * 10 + digit_of d) % u64_mod
      ≡ value * 100 + (c - 48) * 10 + (d - 48)
pair-exact value limit c d is_c is_d high low h k = ground (arith, high, low)

parse_pairs-decimal_from :
    (value limit : ℕ) (cs : Bytes)
    → length cs % 2 ≡ 0
    → AreBytes cs
    → value < limit
    → room limit cs ≤ 1_000_000_000_000_000_000
    → parse_pairs value cs ≡ decimal_from value cs
unfolding parse_pairs decimal_from
parse_pairs-decimal_from value limit [] even b h k = refl
parse_pairs-decimal_from value limit (c ∷ []) even b h k = ground arith
parse_pairs-decimal_from value limit (c ∷ d ∷ cs) even (b, (b', bs)) h k =
    let no_c = digit_of-exact c b in
    let no_d = digit_of-exact d b' in
    elim (Bool-cases (leb 48 c && leb c 57)) [
      | inr other ↦ ground (arith, other, no_c)
      | inl is_c ↦ elim (Bool-cases (leb 48 d && leb d 57)) [
        | inr other ↦ ground (arith, other, no_c, no_d)
        | inl is_d ↦
            let next = value * 100 + (c - 48) * 10 + (d - 48) in
            let high = digit_of-digit c is_c in
            let low = digit_of-digit d is_d in
            let fits = room-le (limit * 10 * 10) cs in
            let step : (value * 100 + digit_of c * 10 + digit_of d) % u64_mod ≡ next =
              pair-exact value limit c d is_c is_d high low h (omega (arith, fits, k)) in
            let rest =
              parse_pairs-decimal_from next (limit * 10 * 10) cs (pair-even c d cs even) bs
                (pair-less value limit c d is_c is_d h) k in
            ground (arith, is_c, is_d, no_c, no_d, ap (λ n. parse_pairs n cs) step ∙ rest)
      ]
    ]

-- A text of 1 to 18 bytes is read two characters at a time just as it is one digit at a time: the same
-- texts are accepted, the value is the same, and no step of the loop wraps around.
pub parse_uint64-decimal_from :
    (from_chars : Bytes → Option ℕ) (value : Bytes)
    → AreBytes value
    → (length value == 0) ≡ false
    → length value ≤ 18
    → parse_uint64 from_chars value ≡ decimal_from 0 value
unfolding parse_uint64 parse_digits decimal_from
parse_uint64-decimal_from from_chars [] b some_text short = ground arith
parse_uint64-decimal_from from_chars (c ∷ cs) (b, bs) some_text short =
    let fits = room-scale 18 1 (c ∷ cs) short in
    let no_c = digit_of-exact c b in
    elim (Bool-cases (length (c ∷ cs) % 2 == 0)) [
      | inl even ↦
          let same =
            parse_pairs-decimal_from 0 1 (c ∷ cs) (ground arith) (b, bs) (omega arith) fits in
          ground (arith, same, even)
      | inr odd ↦ elim (Bool-cases (leb 48 c && leb c 57)) [
        | inr other ↦ ground (arith, odd, other, no_c)
        | inl is_c ↦
            let first = digit_of-digit c is_c in
            let same =
              parse_pairs-decimal_from (c - 48) 10 cs (odd-even c cs odd) bs (ground arith) fits in
            ground (arith, odd, is_c, no_c, ap (λ n. parse_pairs n cs) first ∙ same)
      ]
    ]
