-- ===== src/Market/Fields/Rows.antt =====
-- `split_csv_views` of src/market/field_parser.h on a row that was joined from its fields.
use toy_quant_v.Base.{
  ℕ, zero, suc, ◌≤◌, ◌≡◌, ◌≢◌, refl, ap, ◌∙◌, Bool, true, false, List, [], ◌∷◌, ◌++◌, none, some,
  arith, ◌==◌, if◌then◌else◌, Bytes, length, length-append,
}
use toy_quant_v.Market.Fields.{
  next_field, without_return, without_mark, split_from, split_csv_views,
}

-- The fields with a comma between each two.
unfoldable pub join_fields : List Bytes → Bytes
join_fields [] = []
join_fields (field ∷ []) = field
join_fields (field ∷ next ∷ fields) = field ++ 44 ∷ join_fields (next ∷ fields)

-- A field holds no comma and does not end with a carriage return, and the last one holds something.
abbrev pub HasNoComma : Bytes → Type 0
HasNoComma [] = Unit
HasNoComma (c ∷ cs) = ((c == 44) ≡ false) × HasNoComma cs

abbrev pub ArePlain : List Bytes → Type 0
ArePlain [] = Unit
ArePlain (field ∷ []) = HasNoComma field × (without_return field ≡ field) × (field ≢ [])
ArePlain (field ∷ next ∷ fields) =
    HasNoComma field × (without_return field ≡ field) × ArePlain (next ∷ fields)

-- No byte order mark where the first field begins.
abbrev pub HasNoMark : Bool → List Bytes → Type 0
HasNoMark first [] = Unit
HasNoMark first (field ∷ fields) = (if first then without_mark field else field) ≡ field

next_field-last : (field : Bytes) → HasNoComma field → next_field field ≡ (field, none)
unfolding next_field
next_field-last [] h = refl
next_field-last (c ∷ cs) (h, hs) = ground (arith, next_field-last cs hs)

next_field-comma :
    (field row : Bytes) → HasNoComma field → next_field (field ++ 44 ∷ row) ≡ (field, some row)
unfolding next_field
next_field-comma [] row h = refl
next_field-comma (c ∷ cs) row (h, hs) = ground (arith, next_field-comma cs row hs)

split_from-more :
    (fuel : ℕ) (first : Bool) (row raw rest : Bytes)
    → next_field row ≡ (raw, some rest)
    → split_from (suc fuel) first row
      ≡ (if first then without_mark (without_return raw) else without_return raw)
        ∷ split_from fuel false rest
unfolding split_from next_field
split_from-more fuel first [] raw rest h = ground arith
split_from-more fuel first (c ∷ cs) raw rest h = ground (arith, h)

split_from-end :
    (fuel : ℕ) (first : Bool) (row raw : Bytes)
    → row ≢ []
    → next_field row ≡ (raw, none)
    → split_from (suc fuel) first row
      ≡ (if first then without_mark (without_return raw) else without_return raw) ∷ []
unfolding split_from
split_from-end fuel first [] raw some_row h = ground arith
split_from-end fuel first (c ∷ cs) raw some_row h = ground (arith, h)

-- The characters that a plain list of fields takes: one at least, where it has a field.
join_fields-some :
    (field : Bytes) (fields : List Bytes)
    → ArePlain (field ∷ fields)
    → (join_fields (field ∷ fields) ≢ []) × (1 ≤ length (join_fields (field ∷ fields)))
unfolding join_fields
join_fields-some [] [] (commas, returns, holds) = (holds, ground (arith, holds))
join_fields-some (c ∷ cs) [] plain = ground arith
join_fields-some field (next ∷ fields) plain =
    let n = length-append field (44 ∷ join_fields (next ∷ fields)) in ground (arith, n)

split_from-join_fields :
    (fuel : ℕ) (first : Bool) (fields : List Bytes)
    → length (join_fields fields) ≤ fuel
    → ArePlain fields
    → HasNoMark first fields
    → split_from fuel first (join_fields fields) ≡ fields
unfolding join_fields split_from
split_from-join_fields zero first [] enough plain mark = refl
split_from-join_fields (suc fuel) first [] enough plain mark = refl
split_from-join_fields zero first (field ∷ fields) enough plain mark =
    let some_text = join_fields-some field fields plain in ground (arith, some_text)
split_from-join_fields (suc fuel) first (field ∷ []) enough (commas, returns, holds) mark =
    split_from-end fuel first field field holds (next_field-last field commas)
    ∙ ap (λ f. (if first then without_mark f else f) ∷ []) returns
    ∙ ap (λ f. f ∷ []) mark
split_from-join_fields (suc fuel) first (field ∷ next ∷ fields) enough (commas, returns, plain)
      mark =
    let row = join_fields (next ∷ fields) in
    let n = length-append field (44 ∷ row) in
    let later =
      split_from-join_fields fuel false (next ∷ fields) (omega (arith, n, enough)) plain refl in
    split_from-more fuel first (field ++ 44 ∷ row) field row (next_field-comma field row commas)
    ∙ ap (λ f. (if first then without_mark f else f) ∷ split_from fuel false row) returns
    ∙ ap (λ f. f ∷ split_from fuel false row) mark
    ∙ ap (λ fs. field ∷ fs) later

-- A row of plain fields, joined by commas, is split into just those fields: the length of the row is fuel
-- enough for the loop. A plain field has no comma and no carriage return at its end; the last one is not
-- empty, and the first one does not begin with a byte order mark.
pub split_csv_views-join_fields :
    (fields : List Bytes)
    → ArePlain fields
    → HasNoMark true fields
    → split_csv_views (join_fields fields) ≡ fields
unfolding split_csv_views
split_csv_views-join_fields fields plain mark =
    split_from-join_fields (length (join_fields fields)) true fields (omega arith) plain mark
