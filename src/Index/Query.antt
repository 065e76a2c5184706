-- ===== src/Index/Query.antt =====
-- index/query.go: the conditions of queries, and the values that they compare. A condition's value is
-- one dynamic value or a []interface{}. What strconv, time, regexp and fmt compute is a parameter,
-- and so are the operations on floats, which are bit patterns; a time is a number.
pub mod Combine
pub mod Evaluate
pub mod Match
pub mod Meaning
pub mod NotIn
pub mod Pages
pub mod Parse
mod Runs
use fragmenta.Base.{ℕ, List, Option, Bool}
use fragmenta.Base.Int.{ℤ}
use fragmenta.Index.Manager.{IndexError}

-- The dynamic types of integers.
pub data IntKind : Type 0 where
  go_int go_int8 go_int16 go_int32 go_int64 go_uint go_uint8 go_uint16 go_uint32 go_uint64 : IntKind

-- An interface{} value; `other` stands for the types that no switch names.
pub data Dynamic : Type 0 where
  integer : IntKind → ℤ → Dynamic
  float32 float64 : ℕ → Dynamic
  text : List ℕ → Dynamic
  boolean : Bool → Dynamic
  date : ℤ → Dynamic
  other : Dynamic

pub data Operand : Type 0 where
  one : Dynamic → Operand
  many : List Dynamic → Operand

-- OperatorType; `other_operator` stands for any other string.
pub data OperatorType : Type 0 where
  op_equal op_not_equal op_greater op_greater_equal op_less op_less_equal : OperatorType
  op_contains op_starts_with op_ends_with op_matches op_and op_or op_not op_in op_not_in :
      OperatorType
  op_exists op_between other_operator : OperatorType

-- FieldType, likewise.
pub data FieldType : Type 0 where
  type_string type_integer type_float type_boolean type_date type_tag other_type : FieldType

-- QueryCondition without its children.
pub record Criterion : Type 0 where
  pub field : List ℕ
  pub field_type : FieldType
  pub operator : OperatorType
  pub value : Operand

-- QueryCondition.
mutual
  pub data QueryCondition : Type 0 where
    condition : Criterion → Children → QueryCondition

  pub data Children : Type 0 where
    no_child : Children
    child : QueryCondition → Children → Children

pub record QuerySort : Type 0 where
  pub field : List ℕ
  pub ascending : Bool

-- Query; IncludeDeleted is never read. A missing root condition is nil.
pub record Query : Type 0 where
  pub root_condition : Option QueryCondition
  pub sort_by : List QuerySort
  pub limit : ℤ
  pub offset : ℤ

-- QueryResult without the time that the query took.
pub record QueryResult : Type 0 where
  pub ids : List ℕ
  pub total_count : ℕ

pub data QueryError : Type 0 where
  invalid_query negation_unsupported invalid_tag_value invalid_value unsupported_operator :
      QueryError
  invalid_field_type metadata_not_found conversion_failed provider_failed syntax_error : QueryError
  index_failed : IndexError → QueryError

-- The functions of the standard library that the comparisons call.
pub record Conversions : Type 0 where
  pub parse_int : List ℕ → Option ℤ
  pub parse_float : List ℕ → Option ℕ
  pub parse_bool : List ℕ → Option Bool
  pub parse_time : List ℕ → List ℕ → Option ℤ
  pub match_pattern : List ℕ → List ℕ → Option Bool
  pub format : Dynamic → List ℕ
  pub float_of_int : ℤ → ℕ
  pub int_of_float : ℕ → ℤ
  pub widen : ℕ → ℕ
  pub float_lt : ℕ → ℕ → Bool
  pub float_eq : ℕ → ℕ → Bool
