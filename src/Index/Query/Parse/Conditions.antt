-- ===== src/Index/Query/Parse/Conditions.antt =====
-- index/query.go: parseConditionString, what it calls, and ParseQueryString.
use fragmenta.Base.{ℕ, zero, suc, List, [], ◌∷◌, Option, none, some, if◌then◌else◌, codes}
use fragmenta.Base.{Bool, true, false, ◌||◌, Result, ok, err, ◌>>=◌, has_prefix, text_eq, length}
use fragmenta.Base.Int.{pos, negsuc}
use fragmenta.Index.Query.{
  Dynamic, other, integer, float64, text, boolean, date, go_int, go_int64, go_uint32, one, many,
  OperatorType, op_and, op_or, op_in, op_not_in, op_exists, op_between, FieldType, type_string,
  type_integer, type_float, type_boolean, type_date, type_tag, other_type, QueryCondition,
  condition, Children, no_child, child, Query, Conversions, QueryError, invalid_query, syntax_error,
  invalid_value, invalid_field_type,
}
use fragmenta.Index.Query.Match.{contains_text, converted, to_time}
use fragmenta.Index.Query.Parse.{
  ParseFailure, fails, or_fails, Scanner, trim_space, split, trim_prefix, typed_field, fails_with,
  plain_condition, parse_sort_string, operators, find_operator, unquote,
}

abbrev pub or_else : {A : Type 0} → Option A → Option A → Option A
or_else (some a) next = some a
or_else none next = next

-- None is for a parser that has run out of fuel.
abbrev pub add_child :
    QueryCondition → Option (Result ParseFailure Children) → Option (Result ParseFailure Children)
add_child c none = none
add_child c (some rest) = some (rest >>= λ cs. ok (child c cs))

-- parseLogicalCondition, for its parts.
unfoldable pub parse_each :
    (List ℕ → Option (Result ParseFailure QueryCondition))
    → List (List ℕ)
    → Option (Result ParseFailure Children)
parse_each parse [] = some (ok no_child)
parse_each parse (s ∷ strings) =
    let rest = parse_each parse strings in
    elim (trim_space s) [
      | [] ↦ rest
      | c ∷ t ↦ elim (parse (c ∷ t)) [
        | none ↦ none
        | some (err e) ↦ some (err e)
        | some (ok found) ↦ add_child found rest
      ]
    ]

abbrev pub logical : OperatorType → Children → Result ParseFailure QueryCondition
logical op (child c (child d cs)) = ok (
    condition (record { field = []; field_type = other_type; operator = op; value = one other })
      (child c (child d cs)))
logical op cs = err (fails syntax_error)

abbrev pub join_children :
    OperatorType
    → Option (Result ParseFailure Children)
    → Option (Result ParseFailure QueryCondition)
join_children op none = none
join_children op (some children) = some (children >>= logical op)

abbrev pub in_pattern : List ℕ
in_pattern = codes "^(.*?)\\s+in\\s+\\[(.*?)\\]$"

abbrev pub not_in_pattern : List ℕ
not_in_pattern = codes "^(.*?)\\s+not\\s+in\\s+\\[(.*?)\\]$"

-- What a regular expression of two groups found.
unfoldable pub two_groups : Scanner → List ℕ → List ℕ → Option (List ℕ × List ℕ)
two_groups scan pattern s = elim (scan.captures pattern s) [
  | some (field ∷ values ∷ []) ↦ some (field, values)
  | _ ↦ none
]

module _ (lib : Conversions) (scan : Scanner) where
  unfoldable pub parse_value : List ℕ → FieldType → Result QueryError Dynamic
  parse_value s type_string = ok (text s)
  parse_value s type_integer = converted (lib.parse_int s) >>= λ v. ok (integer go_int64 v)
  parse_value s type_float = converted (lib.parse_float s) >>= λ v. ok (float64 v)
  parse_value s type_boolean = converted (lib.parse_bool s) >>= λ v. ok (boolean v)
  parse_value s type_date = to_time lib (text s) >>= λ v. ok (date v)
  parse_value s type_tag = converted (scan.atoi s) >>= λ v. ok (integer go_int v)
  parse_value s other_type = err invalid_field_type

  unfoldable pub parse_exists_condition : List ℕ → Result ParseFailure QueryCondition
  parse_exists_condition field_str = elim (trim_space field_str) [
    | [] ↦ err (fails syntax_error)
    | c ∷ s ↦
        let (ft, field) = typed_field (c ∷ s) in
        ok (plain_condition field ft op_exists (one (boolean true)))
  ]

  unfoldable pub parse_between_condition :
      List ℕ → List ℕ → List ℕ → Result ParseFailure QueryCondition
  parse_between_condition field_str min_str max_str =
      if text_eq (trim_space field_str) []
        || text_eq (trim_space min_str) []
        || text_eq (trim_space max_str) []
      then err (fails syntax_error)
      else let (ft, field) = typed_field (trim_space field_str) in
        fails_with invalid_value (or_fails (parse_value (trim_space min_str) ft)) >>= λ low.
        fails_with invalid_value (or_fails (parse_value (trim_space max_str) ft)) >>= λ high.
        ok (plain_condition field ft op_between (many (low ∷ high ∷ [])))

  -- One value of a list; a tag is read as a uint32, and a text may be quoted.
  unfoldable pub parse_member : FieldType → List ℕ → Result ParseFailure Dynamic
  parse_member type_string s = unquote s >>= λ t. ok (text t)
  parse_member type_tag s =
      or_fails (converted (scan.parse_uint32 s)) >>= λ v. ok (integer go_uint32 (pos v))
  parse_member ft s = or_fails (parse_value s ft)

  unfoldable pub parse_members : FieldType → List (List ℕ) → Result ParseFailure (List Dynamic)
  parse_members ft [] = ok []
  parse_members ft (s ∷ strings) =
      let rest = parse_members ft strings in
      elim (trim_space s) [
        | [] ↦ rest
        | c ∷ t ↦
            fails_with invalid_value (parse_member ft (c ∷ t)) >>= λ v. rest >>= λ vs. ok (v ∷ vs)
      ]

  unfoldable pub parse_in_condition : List ℕ → List ℕ → Bool → Result ParseFailure QueryCondition
  parse_in_condition field_str values_str is_not_in = elim (trim_space field_str) [
    | [] ↦ err (fails syntax_error)
    | c ∷ s ↦
        let (ft, field) = typed_field (c ∷ s) in
        parse_members ft (split values_str (codes ",")) >>= λ values. elim values [
          | [] ↦ err (fails syntax_error)
          | v ∷ vs ↦
              ok (plain_condition field ft (if is_not_in then op_not_in else op_in) (many (v ∷ vs)))
        ]
  ]

  -- The type that a simple condition's value looks like.
  unfoldable pub inferred_type : List ℕ → FieldType
  inferred_type value = elim (scan.atoi value) [
    | some v ↦ type_integer
    | none ↦ elim (lib.parse_float value) [
      | some v ↦ type_float
      | none ↦
          if text_eq value (codes "true") || text_eq value (codes "false")
          then type_boolean
          else type_string
    ]
  ]

  unfoldable pub parse_simple_condition : List ℕ → Result ParseFailure QueryCondition
  parse_simple_condition cond_str = elim (find_operator operators cond_str) [
    | none ↦ err (fails syntax_error)
    | some (sign, op) ↦ elim (split cond_str sign) [
      | left ∷ right ∷ [] ↦
          let field = trim_space left in
          let value = trim_space right in
          let is_tag = has_prefix (codes "tag:") field in
          let ft = if is_tag then type_tag else inferred_type value in
          fails_with syntax_error (or_fails (parse_value value ft)) >>= λ v. ok (
            plain_condition (if is_tag then trim_prefix (codes "tag:") field else field) ft op
              (one v))
      | _ ↦ err (fails syntax_error)
    ]
  ]

  -- The conditions that a regular expression finds, in the order in which they are tried.
  unfoldable pub parse_exists : List ℕ → Option (Result ParseFailure QueryCondition)
  parse_exists s = elim (scan.captures (codes "^exists\\s+(.*?)$") s) [
    | some (field ∷ []) ↦ some (parse_exists_condition field)
    | _ ↦ none
  ]

  unfoldable pub parse_between : List ℕ → Option (Result ParseFailure QueryCondition)
  parse_between s = elim (scan.captures (codes "^(.*?)\\s+between\\s+(.*?)\\s+and\\s+(.*?)$") s) [
    | some (field ∷ low ∷ high ∷ []) ↦ some (parse_between_condition field low high)
    | _ ↦ none
  ]

  unfoldable pub parse_in : List ℕ → Option (Result ParseFailure QueryCondition)
  parse_in s = elim (two_groups scan in_pattern s) [
    | some (field, values) ↦ some (parse_in_condition field values false)
    | none ↦ none
  ]

  unfoldable pub parse_not_in : List ℕ → Option (Result ParseFailure QueryCondition)
  parse_not_in s = elim (two_groups scan not_in_pattern s) [
    | some (field, values) ↦ some (parse_in_condition field values true)
    | none ↦ none
  ]

  unfoldable pub parse_by_pattern : List ℕ → Option (Result ParseFailure QueryCondition)
  parse_by_pattern s =
      or_else (parse_exists s) (or_else (parse_between s) (or_else (parse_in s) (parse_not_in s)))

  unfoldable pub parse_condition_string : ℕ → List ℕ → Option (Result ParseFailure QueryCondition)
  parse_condition_string zero s = none
  parse_condition_string (suc fuel) s = elim (parse_by_pattern s) [
    | some result ↦ some result
    | none ↦
        if contains_text (codes " and ") s
        then join_children op_and
            (parse_each (parse_condition_string fuel) (split s (codes " and ")))
        else if contains_text (codes " or ") s
        then join_children op_or (parse_each (parse_condition_string fuel) (split s (codes " or ")))
        else some (parse_simple_condition s)
  ]

  -- ParseQueryString, for one part that is trimmed and not empty.
  unfoldable pub parse_part : List ℕ → Query → Option (Result ParseFailure Query)
  parse_part part query =
      if has_prefix (codes "limit:") part
      then some (
          or_fails (converted (scan.atoi (trim_space (trim_prefix (codes "limit:") part)))) >>= λ n.
          ok (record query { limit = n }))
      else if has_prefix (codes "offset:") part
      then some (
          or_fails (converted (scan.atoi (trim_space (trim_prefix (codes "offset:") part))))
          >>= λ n. ok (record query { offset = n }))
      else if has_prefix (codes "sort:") part
      then some
          (ok (record query { sort_by = parse_sort_string (trim_prefix (codes "sort:") part) }))
      else elim (parse_condition_string (suc (length part)) part) [
        | none ↦ none
        | some result ↦ some (result >>= λ c. ok (record query { root_condition = some c }))
      ]

  unfoldable pub parse_parts : List (List ℕ) → Query → Option (Result ParseFailure Query)
  parse_parts [] query = some (ok query)
  parse_parts (part ∷ parts) query = elim (trim_space part) [
    | [] ↦ parse_parts parts query
    | c ∷ s ↦ elim (parse_part (c ∷ s) query) [
      | none ↦ none
      | some (err e) ↦ some (err e)
      | some (ok next) ↦ parse_parts parts next
    ]
  ]

  unfoldable pub parse_query_string : List ℕ → Option (Result ParseFailure Query)
  parse_query_string [] = some (err (fails invalid_query))
  parse_query_string (c ∷ s) =
      parse_parts (split (c ∷ s) (codes ";"))
        (record { root_condition = none; sort_by = []; limit = negsuc 0; offset = pos 0 })
