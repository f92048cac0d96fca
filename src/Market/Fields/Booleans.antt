-- ===== src/Market/Fields/Booleans.antt =====
-- The quick path of `parse_boolean` in src/market/field_parser.h.
use toy_quant_v.Base.{
  ◌≡◌, refl, sym, subst, Bool, true, false, [], ◌∷◌, some, arith, Bytes, bytes, bytes_eq,
  bytes_eq→≡,
}
use toy_quant_v.Market.Fields.{exact_boolean, normal_boolean, normalize_boolean, parse_boolean}

-- A spelling that the general path reads.
spelled :
    (value spelling : Bytes) (b : Bool)
    → normal_boolean (normalize_boolean spelling) ≡ some b
    → bytes_eq value spelling ≡ true
    → normal_boolean (normalize_boolean value) ≡ some b
spelled value spelling b h same =
    subst (λ v. normal_boolean (normalize_boolean v) ≡ some b)
      (sym (bytes_eq→≡ value spelling same)) h

true_spelled :
    (normal_boolean (normalize_boolean (bytes "true")) ≡ some true)
    × (normal_boolean (normalize_boolean (bytes "TRUE")) ≡ some true)
    × (normal_boolean (normalize_boolean (bytes "1")) ≡ some true)
unfolding normalize_boolean bytes_eq
true_spelled = (refl, refl, refl)

false_spelled :
    (normal_boolean (normalize_boolean (bytes "false")) ≡ some false)
    × (normal_boolean (normalize_boolean (bytes "FALSE")) ≡ some false)
    × (normal_boolean (normalize_boolean (bytes "0")) ≡ some false)
unfolding normalize_boolean bytes_eq
false_spelled = (refl, refl, refl)

-- The switch on the first character changes no answer: every value is read as the general path alone
-- would read it.
pub parse_boolean-normal_boolean :
    (value : Bytes) → parse_boolean value ≡ normal_boolean (normalize_boolean value)
unfolding parse_boolean exact_boolean
parse_boolean-normal_boolean [] = refl
parse_boolean-normal_boolean (c ∷ cs) =
    let (t1, t2, t3) = true_spelled in
    let (f1, f2, f3) = false_spelled in
    ground (
      arith,
      spelled (c ∷ cs) (bytes "true") true t1,
      spelled (c ∷ cs) (bytes "TRUE") true t2,
      spelled (c ∷ cs) (bytes "1") true t3,
      spelled (c ∷ cs) (bytes "false") false f1,
      spelled (c ∷ cs) (bytes "FALSE") false f2,
      spelled (c ∷ cs) (bytes "0") false f3,
    )
