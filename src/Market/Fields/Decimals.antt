-- ===== src/Market/Fields/Decimals.antt =====
-- `parse_double` of src/market/field_parser.h and the quantities that are read with it. `std::from_chars`
-- for a double and `std::stod` are the parameters `from_chars` and `stod`; a throw is `none`.
use toy_quant_v.Base.{
  ℕ, suc, pos, ◌+◌, ◌-◌, ◌*◌, ◌^◌, ◌≤◌, ◌≡◌, Bool, false, not, ◌&&◌, ◌||◌, [], ◌∷◌, Option, none,
  some, arith, ltb, leb, ◌==◌, if◌then◌else◌, Bytes, u64_mod, Option-cases, inl, inr,
}
use toy_quant_v.Common.Float.{Float}

abbrev pub digit? : ℕ → Bool
digit? c = leb 48 c && leb c 57

-- `kMaxExactMantissa`
abbrev pub max_exact : ℕ
max_exact = 9_007_199_254_740_991

-- The loop over the integer digits: the mantissa, and the text behind them; `none` for the slow parser.
unfoldable pub scan_integer : ℕ → Bytes → Option (ℕ × Bytes)
scan_integer m [] = some (m, [])
scan_integer m (c ∷ cs) =
    let next = m * 10 + (c - 48) in
    let later = scan_integer next cs in
    if not (digit? c) then some (m, c ∷ cs) else if ltb max_exact next then none else later

-- The loop over the fraction: the mantissa, the number of decimals, and the text behind them.
unfoldable pub scan_fraction : ℕ → ℕ → Bytes → Option (ℕ × ℕ × Bytes)
scan_fraction m decimals [] = some (m, decimals, [])
scan_fraction m decimals (c ∷ cs) =
    let next = m * 10 + (c - 48) in
    let later = scan_fraction next (suc decimals) cs in
    if not (digit? c)
    then some (m, decimals, c ∷ cs)
    else if decimals == 5 || ltb max_exact next
    then none
    else later

abbrev pub starts_with_digit : Bytes → Bool
starts_with_digit [] = false
starts_with_digit (c ∷ cs) = digit? c

-- What stands behind the integer digits.
unfoldable pub scan_rest : ℕ → Bytes → Option (ℕ × ℕ)
scan_rest m [] = some (m, 0)
scan_rest m (c ∷ cs) =
    let fraction : Option (ℕ × ℕ) = elim (scan_fraction m 0 cs) [
      | none ↦ none
      | some (m', decimals, []) ↦ some (m', decimals)
      | some (m', decimals, d ∷ ds) ↦ none
    ] in
    if c == 46 && starts_with_digit cs then fraction else none

-- The mantissa and the number of decimals of a text without a sign.
unfoldable pub scan_unsigned : Bytes → Option (ℕ × ℕ)
scan_unsigned text =
    let parts : Option (ℕ × ℕ) = elim (scan_integer 0 text) [
      | none ↦ none
      | some (m, rest) ↦ scan_rest m rest
    ] in
    if starts_with_digit text then parts else none

-- The sign, the mantissa and the number of decimals.
unfoldable pub scan_decimal : Bytes → Option (Bool × ℕ × ℕ)
scan_decimal [] = none
scan_decimal (c ∷ cs) =
    let signed_parts = if c == 45 || c == 43 then scan_unsigned cs else scan_unsigned (c ∷ cs) in
    elim signed_parts [ none ↦ none | some (m, decimals) ↦ some (c == 45, m, decimals) ]

module _ {F : Type 0} ⦃fl : Float F⦄ where
  unfoldable pub parse_double_slow : (Bytes → Option F) → (Bytes → Option F) → Bytes → Option F
  parse_double_slow from_chars stod value = elim (from_chars value) [
    | some x ↦ some x
    | none ↦ stod value
  ]

  unfoldable pub parse_double : (Bytes → Option F) → (Bytes → Option F) → Bytes → Option F
  parse_double from_chars stod value = elim (scan_decimal value) [
    | none ↦ parse_double_slow from_chars stod value
    | some (negative, m, decimals) ↦
        let magnitude = fl.f_div (fl.of_i64 (pos m)) (fl.decimal (10 ^ decimals) 0) in
        some (if negative then fl.f_neg magnitude else magnitude)
  ]

  unfoldable pub scaled_quantity : (Bytes → Option F) → (Bytes → Option F) → Bytes → ℕ → Option ℕ
  scaled_quantity from_chars stod value scale = elim (parse_double from_chars stod value) [
    | none ↦ none
    | some quantity ↦
        if not (fl.is_finite quantity) || fl.f_lt quantity fl.f_zero
        then none
        else some (fl.llround_u64 (fl.f_mul quantity (fl.of_u64 scale)))
  ]

  unfoldable pub snapshot_quantity : (Bytes → Option F) → (Bytes → Option F) → Bytes → Option ℕ
  snapshot_quantity from_chars stod value = elim (parse_double from_chars stod value) [
    | none ↦ none
    | some quantity ↦
        if not (fl.is_finite quantity)
          || fl.f_lt quantity fl.f_zero
          || fl.f_lt (fl.of_u64 (u64_mod - 1)) quantity
        then none
        else some (fl.llround_u64 quantity)
  ]

scan_integer-bound :
    (m : ℕ) (text : Bytes) (n : ℕ) (rest : Bytes)
    → m ≤ max_exact
    → scan_integer m text ≡ some (n, rest)
    → n ≤ max_exact
unfolding scan_integer
scan_integer-bound m [] n rest h e = ground arith
scan_integer-bound m (c ∷ cs) n rest h e =
    ground (arith, scan_integer-bound (m * 10 + (c - 48)) cs n rest)

scan_fraction-bound :
    (m decimals : ℕ) (text : Bytes) (n k : ℕ) (rest : Bytes)
    → m ≤ max_exact
    → decimals ≤ 5
    → scan_fraction m decimals text ≡ some (n, k, rest)
    → (n ≤ max_exact) × (k ≤ 5)
unfolding scan_fraction
scan_fraction-bound m decimals [] n k rest h d e = ground arith
scan_fraction-bound m decimals (c ∷ cs) n k rest h d e =
    ground (arith, scan_fraction-bound (m * 10 + (c - 48)) (suc decimals) cs n k rest)

scan_rest-bound :
    (m : ℕ) (text : Bytes) (n k : ℕ)
    → m ≤ max_exact
    → scan_rest m text ≡ some (n, k)
    → (n ≤ max_exact) × (k ≤ 5)
unfolding scan_rest
scan_rest-bound m [] n k h e = ground arith
scan_rest-bound m (c ∷ cs) n k h e = elim (Option-cases (scan_fraction m 0 cs)) [
  | inl slow ↦ ground arith
  | inr ((m', decimals, rest), is) ↦ ground (arith, scan_fraction-bound m 0 cs m' decimals rest h)
]

scan_unsigned-bound :
    (text : Bytes) (n k : ℕ) → scan_unsigned text ≡ some (n, k) → (n ≤ max_exact) × (k ≤ 5)
unfolding scan_unsigned
scan_unsigned-bound text n k e = elim (Option-cases (scan_integer 0 text)) [
  | inl slow ↦ ground arith
  | inr ((m, rest), is) ↦
      ground (arith, scan_integer-bound 0 text m rest (omega arith) is, scan_rest-bound m rest n k)
]

-- What the fast path of `parse_double` accepts it can divide exactly: the mantissa has 53 bits at most and
-- there are five decimals at most, so that both operands of the division are exact doubles.
pub scan_decimal-bound :
    (value : Bytes) (negative : Bool) (m decimals : ℕ)
    → scan_decimal value ≡ some (negative, m, decimals)
    → (m ≤ 2 ^ 53 - 1) × (decimals ≤ 5)
unfolding scan_decimal
scan_decimal-bound [] negative m decimals e = ground arith
scan_decimal-bound (c ∷ cs) negative m decimals e =
    elim (Option-cases (if c == 45 || c == 43 then scan_unsigned cs else scan_unsigned (c ∷ cs))) [
      | inl slow ↦ ground arith
      | inr ((n, k), is) ↦
          ground (arith, scan_unsigned-bound cs n k, scan_unsigned-bound (c ∷ cs) n k)
    ]
