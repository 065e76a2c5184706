-- ===== src/Index/Query/Match.antt =====
-- index/query.go: whether a metadata value meets a condition (matchCondition, matchInCondition,
-- matchBetweenCondition and what they call).
use fragmenta.Base.{ℕ, ◌^◌, List, [], ◌∷◌, Option, none, some, ◌==◌, ltb, if◌then◌else◌, codes}
use fragmenta.Base.{
  Bool, true, false, not, ◌&&◌, ◌||◌, Result, ok, err, ◌>>=◌, text_eq, has_prefix, has_suffix,
}
use fragmenta.Base.Int.{ℤ, pos, ltb_ℤ, pos_part, neg_part, to_unsigned, to_signed}
use fragmenta.Index.Query.{IntKind, go_int, go_int64, go_uint, go_uint64}
use fragmenta.Index.Query.{
  Dynamic, integer, float32, float64, text, boolean, date, Operand, one, many,
}
use fragmenta.Index.Query.{
  OperatorType, op_equal, op_not_equal, op_greater, op_greater_equal, op_less, op_less_equal,
}
use fragmenta.Index.Query.{op_contains, op_starts_with, op_ends_with, op_matches}
use fragmenta.Index.Query.{
  FieldType, type_string, type_integer, type_float, type_boolean, type_date, type_tag, other_type,
}
use fragmenta.Index.Query.{
  QueryError, invalid_value, unsupported_operator, invalid_field_type, conversion_failed,
  Conversions,
}

abbrev pub eq_ℤ : ℤ → ℤ → Bool
eq_ℤ a b = pos_part a == pos_part b && neg_part a == neg_part b

-- `<=` on strings.
unfoldable pub text_leb : List ℕ → List ℕ → Bool
text_leb [] ys = true
text_leb (x ∷ xs) [] = false
text_leb (x ∷ xs) (y ∷ ys) = ltb x y || x == y && text_leb xs ys

-- strings.Contains(s, p), with the part first.
unfoldable pub contains_text : List ℕ → List ℕ → Bool
unfolding has_prefix
contains_text p [] = has_prefix p []
contains_text p (c ∷ s) = has_prefix p (c ∷ s) || contains_text p s

abbrev pub converted : {A : Type 0} → Option A → Result QueryError A
converted none = err conversion_failed
converted (some a) = ok a

-- int64(v) of an unsigned integer is a conversion that wraps around; a uint64 is tested before.
unfoldable pub int64_of : IntKind → ℤ → Result QueryError ℤ
int64_of go_uint64 v = if ltb (pos_part v) (2 ^ 63) then ok v else err invalid_value
int64_of go_uint v = ok (to_signed (2 ^ 63) (to_unsigned (2 ^ 64) v))
int64_of kind v = ok v

-- The comparison operators, for an order and an equality.
abbrev pub compare_by :
    {A : Type 0} → (A → A → Bool) → (A → A → Bool) → OperatorType → A → A → Result QueryError Bool
compare_by lt eq op a b = elim op [
  | op_equal ↦ ok (eq a b)
  | op_not_equal ↦ ok (not (eq a b))
  | op_greater ↦ ok (lt b a)
  | op_greater_equal ↦ ok (lt b a || eq a b)
  | op_less ↦ ok (lt a b)
  | op_less_equal ↦ ok (lt a b || eq a b)
  | _ ↦ err unsupported_operator
]

abbrev pub within_by : {A : Type 0} → (A → A → Bool) → (A → A → Bool) → A → A → A → Bool
within_by lt eq a low high = (lt low a || eq low a) && (lt a high || eq a high)

abbrev int64_operand : Operand → Result QueryError ℤ
int64_operand (one (integer go_int64 v)) = ok v
int64_operand o = err invalid_value

abbrev float_operand : Operand → Result QueryError ℕ
float_operand (one (float64 v)) = ok v
float_operand o = err invalid_value

abbrev text_value : Dynamic → Result QueryError (List ℕ)
text_value (text s) = ok s
text_value d = err invalid_value

abbrev text_operand : Operand → Result QueryError (List ℕ)
text_operand (one d) = text_value d
text_operand (many ds) = err invalid_value

abbrev bool_operand : Operand → Result QueryError Bool
bool_operand (one (boolean b)) = ok b
bool_operand o = err invalid_value

abbrev date_operand : Operand → Result QueryError ℤ
date_operand (one (date t)) = ok t
date_operand o = err invalid_value

abbrev bool_eq : Bool → Bool → Bool
bool_eq a b = if a then b else not b

module _ (lib : Conversions) where
  -- toInt64, and the same switch in matchIntegerCondition.
  unfoldable pub to_int64 : Dynamic → Result QueryError ℤ
  to_int64 (integer kind v) = int64_of kind v
  to_int64 (float32 b) = ok (lib.int_of_float (lib.widen b))
  to_int64 (float64 b) = ok (lib.int_of_float b)
  to_int64 (text s) = converted (lib.parse_int s)
  to_int64 d = err invalid_value

  -- toFloat64, and the same switch in matchFloatCondition.
  unfoldable pub to_float64 : Dynamic → Result QueryError ℕ
  to_float64 (integer kind v) = ok (lib.float_of_int v)
  to_float64 (float32 b) = ok (lib.widen b)
  to_float64 (float64 b) = ok b
  to_float64 (text s) = converted (lib.parse_float s)
  to_float64 d = err invalid_value

  -- The layouts that are tried in turn; the first is time.RFC3339.
  unfoldable pub parse_date : List (List ℕ) → List ℕ → Result QueryError ℤ
  parse_date [] s = err conversion_failed
  parse_date (layout ∷ layouts) s =
      let others = parse_date layouts s in
      elim (lib.parse_time layout s) [ some t ↦ ok t | none ↦ others ]

  -- toTime, and the same switch in matchDateCondition.
  unfoldable pub to_time : Dynamic → Result QueryError ℤ
  to_time (date t) = ok t
  to_time (text s) =
      parse_date
        (codes "2006-01-02T15:04:05Z07:00" ∷ codes "2006-01-02" ∷ codes "2006-01-02 15:04:05" ∷ [])
        s
  to_time d = err invalid_value

  -- The switch of matchBooleanCondition. Its `v != 0` compares an interface{} with an int, so it is
  -- false of an int 0 only.
  unfoldable pub to_bool : Dynamic → Result QueryError Bool
  to_bool (boolean b) = ok b
  to_bool (text s) = converted (lib.parse_bool s)
  to_bool (integer go_int v) = ok (not (eq_ℤ v (pos 0)))
  to_bool (integer kind v) = ok true
  to_bool d = err invalid_value

  abbrev to_text : Dynamic → List ℕ
  to_text (text s) = s
  to_text d = lib.format d

  -- matchStringCondition.
  unfoldable pub match_string : OperatorType → Operand → Dynamic → Result QueryError Bool
  match_string op o v = text_operand o >>= λ c. elim op [
    | op_equal ↦ ok (text_eq (to_text v) c)
    | op_not_equal ↦ ok (not (text_eq (to_text v) c))
    | op_contains ↦ ok (contains_text c (to_text v))
    | op_starts_with ↦ ok (has_prefix c (to_text v))
    | op_ends_with ↦ ok (has_suffix c (to_text v))
    | op_matches ↦ converted (lib.match_pattern c (to_text v))
    | _ ↦ err unsupported_operator
  ]

  -- matchIntegerCondition, matchFloatCondition, matchBooleanCondition and matchDateCondition convert
  -- the value before they look at the operand.
  unfoldable pub match_integer : OperatorType → Operand → Dynamic → Result QueryError Bool
  match_integer op o v = do a ← to_int64 v; b ← int64_operand o; compare_by ltb_ℤ eq_ℤ op a b

  unfoldable pub match_float : OperatorType → Operand → Dynamic → Result QueryError Bool
  match_float op o v = do
    a ← to_float64 v
    b ← float_operand o
    compare_by lib.float_lt lib.float_eq op a b

  unfoldable pub match_boolean : OperatorType → Operand → Dynamic → Result QueryError Bool
  match_boolean op o v = do
    a ← to_bool v
    b ← bool_operand o
    elim op [
      | op_equal ↦ ok (bool_eq a b)
      | op_not_equal ↦ ok (not (bool_eq a b))
      | _ ↦ err unsupported_operator
    ]

  unfoldable pub match_date : OperatorType → Operand → Dynamic → Result QueryError Bool
  match_date op o v = do a ← to_time v; b ← date_operand o; compare_by ltb_ℤ eq_ℤ op a b

  -- matchCondition, by the field's type.
  unfoldable pub match_condition :
      FieldType → OperatorType → Operand → Dynamic → Result QueryError Bool
  unfolding match_string match_integer match_float match_boolean match_date
  match_condition type_string op o v = match_string op o v
  match_condition type_integer op o v = match_integer op o v
  match_condition type_float op o v = match_float op o v
  match_condition type_boolean op o v = match_boolean op o v
  match_condition type_date op o v = match_date op o v
  match_condition type_tag op o v = err invalid_field_type
  match_condition other_type op o v = err invalid_field_type

  -- matchInCondition, for the elements of the collection: whether the value equals one.
  unfoldable pub match_any : FieldType → List Dynamic → Dynamic → Result QueryError Bool
  match_any ft [] v = ok false
  match_any ft (d ∷ ds) v =
      let rest = match_any ft ds v in
      match_condition ft op_equal (one d) v >>= λ matched. if matched then ok true else rest

  unfoldable pub match_in : Bool → FieldType → Operand → Dynamic → Result QueryError Bool
  match_in negated ft (one d) v = err invalid_value
  match_in negated ft (many ds) v =
      match_any ft ds v >>= λ found. ok (if negated then not found else found)

  -- matchStringBetween, matchIntegerBetween, matchFloatBetween and matchDateBetween.
  unfoldable pub string_between : Dynamic → Dynamic → Dynamic → Result QueryError Bool
  string_between v low high = do
    a ← text_value low
    b ← text_value high
    ok (text_leb a (to_text v) && text_leb (to_text v) b)

  unfoldable pub integer_between : Dynamic → Dynamic → Dynamic → Result QueryError Bool
  integer_between v low high = do
    n ← to_int64 v
    a ← to_int64 low
    b ← to_int64 high
    ok (within_by ltb_ℤ eq_ℤ n a b)

  unfoldable pub float_between : Dynamic → Dynamic → Dynamic → Result QueryError Bool
  float_between v low high = do
    n ← to_float64 v
    a ← to_float64 low
    b ← to_float64 high
    ok (within_by lib.float_lt lib.float_eq n a b)

  unfoldable pub date_between : Dynamic → Dynamic → Dynamic → Result QueryError Bool
  date_between v low high = do
    n ← to_time v
    a ← to_time low
    b ← to_time high
    ok (within_by ltb_ℤ eq_ℤ n a b)

  -- matchBetweenCondition, by the field's type.
  unfoldable pub between : FieldType → Dynamic → Dynamic → Dynamic → Result QueryError Bool
  unfolding string_between integer_between float_between date_between
  between type_string v low high = string_between v low high
  between type_integer v low high = integer_between v low high
  between type_float v low high = float_between v low high
  between type_date v low high = date_between v low high
  between ft v low high = err unsupported_operator

  unfoldable pub match_between : FieldType → Operand → Dynamic → Result QueryError Bool
  match_between ft (many (low ∷ high ∷ [])) v = between ft v low high
  match_between ft o v = err invalid_value
