-- ===== src/Index/Query/Parse.antt =====
-- index/query.go: ParseQueryString. A string is its bytes. The regular expressions,
-- strconv.Atoi and strconv.ParseUint are parameters. A slice out of range panics, which ends the call
-- without a value or an error.
pub mod Conditions
pub mod Ends
mod Runs
use fragmenta.Base.{
  ℕ, zero, suc, ◌-◌, List, [], ◌∷◌, Option, none, some, ltb, ◌==◌, if◌then◌else◌, codes,
}
use fragmenta.Base.{
  Bool, true, false, ◌&&◌, ◌||◌, Result, ok, err, ◌>>=◌, map_err, has_prefix, has_suffix, text_eq,
  length, take, drop, any,
}
use mathlib.Core.List.{reverse}
use fragmenta.Base.Int.{ℤ, pos, negsuc}
use fragmenta.Index.Query.{
  Dynamic, integer, float64, text, boolean, date, go_int, go_int64, go_uint32, Operand, one, many,
  OperatorType, op_equal, op_not_equal, op_greater, op_greater_equal, op_less, op_less_equal,
  op_and, op_or, op_in, op_not_in, op_exists, op_between, FieldType, type_string, type_integer,
  type_float, type_boolean, type_date, type_tag, other_type, Criterion, QueryCondition, condition,
  Children, no_child, child, QuerySort, Query, Conversions, QueryError, invalid_query, syntax_error,
  invalid_value, invalid_field_type, conversion_failed,
}
use fragmenta.Index.Query.Match.{contains_text, converted, to_time}

-- `captures` is FindStringSubmatch without the whole match, for a pattern and a text.
pub record Scanner : Type 0 where
  pub captures : List ℕ → List ℕ → Option (List (List ℕ))
  pub atoi : List ℕ → Option ℤ
  pub parse_uint32 : List ℕ → Option ℕ

-- How a call of the parser ends without a value: with an error, or with the panic of a slice.
pub data ParseFailure : Type 0 where
  fails : QueryError → ParseFailure
  slice_panics : ParseFailure

abbrev pub or_fails : {A : Type 0} → Result QueryError A → Result ParseFailure A
or_fails r = map_err fails r

-- The characters that unicode.IsSpace accepts, in UTF-8.
abbrev white_space : List (List ℕ)
white_space =
    (9 ∷ [])
    ∷ (10 ∷ [])
    ∷ (11 ∷ [])
    ∷ (12 ∷ [])
    ∷ (13 ∷ [])
    ∷ (32 ∷ [])
    ∷ (0xC2 ∷ 0x85 ∷ [])
    ∷ (0xC2 ∷ 0xA0 ∷ [])
    ∷ (0xE1 ∷ 0x9A ∷ 0x80 ∷ [])
    ∷ (0xE2 ∷ 0x80 ∷ 0x80 ∷ [])
    ∷ (0xE2 ∷ 0x80 ∷ 0x81 ∷ [])
    ∷ (0xE2 ∷ 0x80 ∷ 0x82 ∷ [])
    ∷ (0xE2 ∷ 0x80 ∷ 0x83 ∷ [])
    ∷ (0xE2 ∷ 0x80 ∷ 0x84 ∷ [])
    ∷ (0xE2 ∷ 0x80 ∷ 0x85 ∷ [])
    ∷ (0xE2 ∷ 0x80 ∷ 0x86 ∷ [])
    ∷ (0xE2 ∷ 0x80 ∷ 0x87 ∷ [])
    ∷ (0xE2 ∷ 0x80 ∷ 0x88 ∷ [])
    ∷ (0xE2 ∷ 0x80 ∷ 0x89 ∷ [])
    ∷ (0xE2 ∷ 0x80 ∷ 0x8A ∷ [])
    ∷ (0xE2 ∷ 0x80 ∷ 0xA8 ∷ [])
    ∷ (0xE2 ∷ 0x80 ∷ 0xA9 ∷ [])
    ∷ (0xE2 ∷ 0x80 ∷ 0xAF ∷ [])
    ∷ (0xE2 ∷ 0x81 ∷ 0x9F ∷ [])
    ∷ (0xE3 ∷ 0x80 ∷ 0x80 ∷ [])
    ∷ []

-- How many bytes the character takes that starts the text, if it is one of these.
unfoldable pub width_of : List (List ℕ) → List ℕ → ℕ
width_of [] s = 0
width_of (c ∷ cs) s = let others = width_of cs s in if has_prefix c s then length c else others

-- The text without the characters at its start; so many bytes are still skipped.
unfoldable pub trim_start : List (List ℕ) → ℕ → List ℕ → List ℕ
trim_start spaces skipped [] = []
trim_start spaces (suc skipped) (c ∷ s) = trim_start spaces skipped s
trim_start spaces zero (c ∷ s) = elim (width_of spaces (c ∷ s)) [
  | zero ↦ c ∷ s
  | suc n ↦ trim_start spaces n s
]

abbrev backwards : List (List ℕ) → List (List ℕ)
backwards [] = []
backwards (c ∷ cs) = reverse c ∷ backwards cs

-- strings.TrimSpace.
abbrev pub trim_space : List ℕ → List ℕ
trim_space s = reverse (trim_start (backwards white_space) 0 (reverse (trim_start white_space 0 s)))

-- strings.Split at a separator that is not empty: so many bytes are still skipped, and the part so far
-- is kept in reverse.
unfoldable pub split_from : List ℕ → ℕ → List ℕ → List ℕ → List (List ℕ)
split_from sep skipped part [] = reverse part ∷ []
split_from sep (suc skipped) part (c ∷ s) = split_from sep skipped part s
split_from sep zero part (c ∷ s) = elim (has_prefix sep (c ∷ s)) [
  | true ↦ reverse part ∷ split_from sep (length sep - 1) [] s
  | false ↦ split_from sep zero (c ∷ part) s
]

abbrev pub split : List ℕ → List ℕ → List (List ℕ)
split s sep = split_from sep 0 [] s

-- strings.TrimPrefix, with the prefix first.
abbrev pub trim_prefix : List ℕ → List ℕ → List ℕ
trim_prefix p s = if has_prefix p s then drop (length p) s else s

-- The type that a field's prefix names, and the field without it.
unfoldable pub typed_field : List ℕ → FieldType × List ℕ
typed_field s =
    if has_prefix (codes "tag:") s
    then (type_tag, trim_prefix (codes "tag:") s)
    else if has_prefix (codes "int:") s
    then (type_integer, trim_prefix (codes "int:") s)
    else if has_prefix (codes "float:") s
    then (type_float, trim_prefix (codes "float:") s)
    else if has_prefix (codes "bool:") s
    then (type_boolean, trim_prefix (codes "bool:") s)
    else if has_prefix (codes "date:") s
    then (type_date, trim_prefix (codes "date:") s)
    else (type_string, s)

-- `fmt.Errorf("%w: …", e, …)` where a step fails.
abbrev pub fails_with : {A : Type 0} → QueryError → Result ParseFailure A → Result ParseFailure A
fails_with e (ok a) = ok a
fails_with e (err (fails inner)) = err (fails e)
fails_with e (err slice_panics) = err slice_panics

-- A condition without children.
abbrev pub plain_condition : List ℕ → FieldType → OperatorType → Operand → QueryCondition
plain_condition field ft op value =
    condition (record { field = field; field_type = ft; operator = op; value = value }) no_child

-- parseSortString, for one field.
unfoldable pub parse_sort_field : List ℕ → Option QuerySort
parse_sort_field field =
    let ascending =
      if has_prefix (codes "+") field
      then true
      else if has_prefix (codes "-") field
      then false
      else true in
    let name = trim_space (
      if has_prefix (codes "+") field || has_prefix (codes "-") field
      then drop 1 field
      else field) in
    elim name [ [] ↦ none | c ∷ s ↦ some (record { field = c ∷ s; ascending = ascending }) ]

unfoldable pub parse_sort_fields : List (List ℕ) → List QuerySort
parse_sort_fields [] = []
parse_sort_fields (field ∷ fields) =
    let rest = parse_sort_fields fields in
    elim (parse_sort_field (trim_space field)) [ none ↦ rest | some s ↦ s ∷ rest ]

unfoldable pub parse_sort_string : List ℕ → List QuerySort
parse_sort_string s = elim (trim_space s) [
  | [] ↦ []
  | c ∷ t ↦ parse_sort_fields (split (c ∷ t) (codes ","))
]

-- The operators of simple conditions, in the order in which they are looked for.
abbrev pub operators : List (List ℕ × OperatorType)
operators =
    (codes ">=", op_greater_equal)
    ∷ (codes "<=", op_less_equal)
    ∷ (codes "==", op_equal)
    ∷ (codes "!=", op_not_equal)
    ∷ (codes ">", op_greater)
    ∷ (codes "<", op_less)
    ∷ []

unfoldable pub find_operator :
    List (List ℕ × OperatorType) → List ℕ → Option (List ℕ × OperatorType)
find_operator [] s = none
find_operator ((sign, op) ∷ ops) s =
    let rest = find_operator ops s in if contains_text sign s then some (sign, op) else rest

-- A value's quotes, where it has two, are taken off; one quote alone makes the slice panic.
unfoldable pub unquote : List ℕ → Result ParseFailure (List ℕ)
unquote s =
    if has_prefix (codes "'") s && has_suffix (codes "'") s
      || has_prefix (34 ∷ []) s && has_suffix (34 ∷ []) s
    then (if ltb (length s) 2 then err slice_panics else ok (take (length s - 2) (drop 1 s)))
    else ok s
