-- ===== src/Market/Fields/Tests.antt =====
-- The witnesses for src/market/field_parser.h.
use toy_quant_v.Base.{
  ℕ, ◌≡◌, ◌≤◌, refl, true, List, [], ◌∷◌, Option, some, arith, Bytes, bytes, ◌^◌, ◌-◌,
}
use toy_quant_v.Market.Fields.{
  parse_uint64, split_csv_views, parse_boolean, normal_boolean, normalize_boolean, without_return,
  without_mark,
}
use toy_quant_v.Market.Fields.Digits.{decimal_from, parse_uint64-decimal_from}
use toy_quant_v.Market.Fields.Rows.{join_fields, split_csv_views-join_fields}
use toy_quant_v.Market.Fields.Decimals.{
  scan_decimal, scan_unsigned, scan_integer, scan_rest, scan_fraction, scan_decimal-bound,
}
use toy_quant_v.Market.Fields.Booleans.{parse_boolean-normal_boolean}

-- A general parser for the longer texts.
abbrev general : Bytes → Option ℕ
general value = decimal_from 0 value

parse_uint64-decimal_from_example : parse_uint64 general (bytes "40271") ≡ some 40271
unfolding decimal_from
parse_uint64-decimal_from_example =
    parse_uint64-decimal_from general (bytes "40271")
      (omega arith, (omega arith, (omega arith, (omega arith, (omega arith, tt))))) refl
      (omega arith)

abbrev three_fields : List Bytes
three_fields = bytes "12" ∷ [] ∷ bytes "buy" ∷ []

split_csv_views-join_fields_example : split_csv_views (bytes "12,,buy") ≡ three_fields
unfolding join_fields without_return without_mark
split_csv_views-join_fields_example =
    split_csv_views-join_fields three_fields
      ((refl, (refl, tt)), refl, (tt, refl, ((refl, (refl, (refl, tt))), refl, ground arith))) refl

parse_boolean-normal_boolean_example :
    parse_boolean (bytes "TRUE") ≡ normal_boolean (normalize_boolean (bytes "TRUE"))
parse_boolean-normal_boolean_example = parse_boolean-normal_boolean (bytes "TRUE")

scan_decimal-bound_example : (1250 ≤ 2 ^ 53 - 1) × (2 ≤ 5)
unfolding scan_decimal scan_unsigned scan_integer scan_rest scan_fraction
scan_decimal-bound_example = scan_decimal-bound (bytes "-12.50") true 1250 2 refl
