-- ===== src/Market/Fields.antt =====
-- The parsers of a row's fields (src/market/field_parser.h). A value that is refused by a throw is `none`.
-- `std::from_chars` for an unsigned integer is the parameter `from_chars`.
pub mod Digits
pub mod Rows
pub mod Booleans
pub mod Decimals
pub mod Tests
use toy_quant_v.Base.{
  ℕ, zero, suc, ◌+◌, ◌-◌, ◌*◌, ◌%◌, Bool, true, false, not, ◌&&◌, ◌||◌, List, [], ◌∷◌, ◌++◌, Option,
  none, some, ltb, leb, ◌==◌, if◌then◌else◌, Bytes, bytes, bytes_eq, length, u64_mod,
}

-- `static_cast<unsigned>(c) - '0'`; a byte that is no digit comes out above 9.
unfoldable pub digit_of : ℕ → ℕ
digit_of c = (c + 4_294_967_296 - 48) % 4_294_967_296

-- The loop of `parse_uint64`, on an even number of characters.
unfoldable pub parse_pairs : ℕ → Bytes → Option ℕ
parse_pairs result [] = some result
parse_pairs result (a ∷ []) = none
parse_pairs result (a ∷ b ∷ rest) =
    let high = digit_of a in
    let low = digit_of b in
    let value = parse_pairs ((result * 100 + high * 10 + low) % u64_mod) rest in
    if ltb 9 high || ltb 9 low then none else value

-- The fast path: an odd number of characters begins with a digit of its own.
unfoldable pub parse_digits : Bytes → Option ℕ
parse_digits [] = some 0
parse_digits (c ∷ cs) =
    let after_first = parse_pairs (digit_of c) cs in
    if length (c ∷ cs) % 2 == 0
    then parse_pairs 0 (c ∷ cs)
    else if ltb 9 (digit_of c)
    then none
    else after_first

unfoldable pub parse_uint64 : (Bytes → Option ℕ) → Bytes → Option ℕ
parse_uint64 from_chars value =
    if length value == 0 || ltb 18 (length value) then from_chars value else parse_digits value

-- The field up to the next comma, and the row behind the comma if there is one.
unfoldable pub next_field : Bytes → Bytes × Option Bytes
next_field [] = ([], none)
next_field (c ∷ cs) =
    let (field, rest) = next_field cs in if c == 44 then ([], some cs) else (c ∷ field, rest)

-- Without a carriage return at its end.
unfoldable pub without_return : Bytes → Bytes
without_return [] = []
without_return (c ∷ []) = if c == 13 then [] else c ∷ []
without_return (c ∷ d ∷ cs) = c ∷ without_return (d ∷ cs)

-- The first field without a byte order mark.
unfoldable pub without_mark : Bytes → Bytes
without_mark (a ∷ b ∷ c ∷ cs) = if a == 239 && b == 187 && c == 191 then cs else a ∷ b ∷ c ∷ cs
without_mark (a ∷ b ∷ []) = a ∷ b ∷ []
without_mark (a ∷ []) = a ∷ []
without_mark [] = []

-- The loop of `split_csv_views`, on fuel; `first` holds while no field was found.
unfoldable pub split_from : ℕ → Bool → Bytes → List Bytes
split_from zero first row = []
split_from (suc fuel) first [] = []
split_from (suc fuel) first (c ∷ cs) =
    let (raw, rest) = next_field (c ∷ cs) in
    let trimmed = without_return raw in
    let field = if first then without_mark trimmed else trimmed in
    elim rest [ none ↦ field ∷ [] | some row ↦ field ∷ split_from fuel false row ]

-- A field takes a character of the row at least, so that the row's length is enough.
unfoldable pub split_csv_views : Bytes → List Bytes
split_csv_views row = split_from (length row) true row

-- `std::isspace` of the C locale, or a quotation mark.
abbrev pub dropped? : ℕ → Bool
dropped? c = c == 32 || leb 9 c && leb c 13 || c == 34

-- `std::tolower` of the C locale.
abbrev pub to_lower : ℕ → ℕ
to_lower c = if leb 65 c && leb c 90 then c + 32 else c

unfoldable pub normalize_boolean : Bytes → Bytes
normalize_boolean [] = []
normalize_boolean (c ∷ cs) =
    let rest = normalize_boolean cs in if dropped? c then rest else to_lower c ∷ rest

-- The switch on the first character; `none` where it ends without a return.
unfoldable pub exact_boolean : Bytes → Option Bool
exact_boolean [] = none
exact_boolean (c ∷ cs) =
    let value = c ∷ cs in
    if c == 116 || c == 84
    then (if bytes_eq value (bytes "true") || bytes_eq value (bytes "TRUE")
        then some true
        else none)
    else if c == 102 || c == 70
    then (if bytes_eq value (bytes "false") || bytes_eq value (bytes "FALSE")
        then some false
        else none)
    else if c == 49
    then (if bytes_eq value (bytes "1") then some true else none)
    else if c == 48
    then (if bytes_eq value (bytes "0") then some false else none)
    else none

abbrev pub normal_boolean : Bytes → Option Bool
normal_boolean value =
    if bytes_eq value (bytes "true") || bytes_eq value (bytes "1")
    then some true
    else if bytes_eq value (bytes "false") || bytes_eq value (bytes "0")
    then some false
    else none

unfoldable pub parse_boolean : Bytes → Option Bool
parse_boolean value = elim (exact_boolean value) [
  | some b ↦ some b
  | none ↦ normal_boolean (normalize_boolean value)
]
