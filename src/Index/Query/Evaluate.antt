-- ===== src/Index/Query/Evaluate.antt =====
-- index/query.go (DefaultQueryExecutor): evaluateCondition with the evaluation of tags and of
-- metadata, applySorting and Execute. The index manager and the provider of metadata are a record of
-- their answers, as Execute changes neither; DefaultMetadataProvider answers from its cache. A `range`
-- loop over a map has an order of its own at each call, so GetAllIDs is told where in the condition it
-- is called: by the numbers of the children on the way there, the innermost first.
use fragmenta.Base.{ℕ, zero, suc, ◌+◌, ◌^◌, ◌%◌, List, [], ◌∷◌, ◌++◌, none, some, ◌==◌, ltb, leb}
use fragmenta.Base.{
  if◌then◌else◌, codes, Bool, true, false, any, length, take, drop, Result, ok, err, ◌>>=◌, text_eq,
}
use mathlib.Core.List.{reverse}
use fragmenta.Base.Int.{ℤ, pos, negsuc, pos_part, to_unsigned}
use fragmenta.Base.Map.{nat_eq, text_keys, lookup}
use fragmenta.Index.Manager.{IndexManager, find_by_key}
use fragmenta.Index.Manager.Query.{sort, keep_in}
use fragmenta.Index.Query.{
  go_int, go_int64, go_uint32, Dynamic, integer, Operand, one, many, OperatorType, Conversions,
}
use fragmenta.Index.Query.{op_equal, op_in, op_not_in, op_exists, op_between, op_and, op_or, op_not}
use fragmenta.Index.Query.{
  FieldType, type_tag, Criterion, QueryCondition, condition, Children, no_child, child, QuerySort,
  Query, QueryResult,
}
use fragmenta.Index.Query.{
  QueryError, invalid_query, negation_unsupported, invalid_tag_value, invalid_value,
  unsupported_operator,
}
use fragmenta.Index.Query.{metadata_not_found, index_failed}
use fragmenta.Index.Query.Match.{match_condition, match_in, match_between}

abbrev pub Metadata : Type 0
Metadata = List (List ℕ × Dynamic)

-- What the IndexManager and MetadataProvider interfaces answer.
pub record Sources : Type 0 where
  pub find_by_tag : ℕ → Result QueryError (List ℕ)
  pub get_all_ids : List ℕ → Result QueryError (List ℕ)
  pub get_metadata_for_id : ℕ → Result QueryError Metadata

-- The keys of the cache, in the order of the list; GetAllIDs has them in the order of its call.
abbrev pub cached_ids : List (ℕ × Metadata) → List ℕ
cached_ids [] = []
cached_ids ((id, m) ∷ cache) = id ∷ cached_ids cache

-- NewQueryExecutor on an index manager: DefaultMetadataProvider with its cache, GetMetadataForID and
-- GetAllIDs; `range_order` is the order that each call gives to the keys. No code fills the cache that NewDefaultMetadataProvider makes.
unfoldable pub default_sources :
    (List ℕ → List ℕ → List ℕ) → List (ℕ × Metadata) → IndexManager → Sources
default_sources range_order cache im = record {
  find_by_tag = λ tag. elim (find_by_key tag im) [ ok ids ↦ ok ids | err e ↦ err (index_failed e) ];
  get_all_ids = λ place. ok (range_order place (cached_ids cache));
  get_metadata_for_id =
      λ id. elim (lookup id cache) [ none ↦ err metadata_not_found | some m ↦ ok m ];
}

-- union: the loop over a list, with the ids seen before it.
unfoldable pub unseen : List ℕ → List ℕ → List ℕ
unseen seen [] = []
unseen seen (x ∷ xs) = if any (λ y. y == x) seen then unseen seen xs else x ∷ unseen (x ∷ seen) xs

unfoldable pub intersect : List ℕ → List ℕ → List ℕ
intersect [] b = []
intersect (x ∷ a) [] = []
intersect (x ∷ a) (y ∷ b) = keep_in (y ∷ b) (x ∷ a)

unfoldable pub union : List ℕ → List ℕ → List ℕ
union [] b = b
union (x ∷ a) [] = x ∷ a
union (x ∷ a) (y ∷ b) = unseen [] ((x ∷ a) ++ (y ∷ b))

unfoldable pub keep_out : List ℕ → List ℕ → List ℕ
keep_out b [] = []
keep_out b (x ∷ xs) = let rest = keep_out b xs in if any (λ y. y == x) b then rest else x ∷ rest

unfoldable pub difference : List ℕ → List ℕ → List ℕ
difference [] b = []
difference (x ∷ a) [] = x ∷ a
difference (x ∷ a) (y ∷ b) = keep_out (y ∷ b) (x ∷ a)

-- The tag of an `==` condition on tags: uint32(offset + v), and the value itself for other fields.
abbrev shifted : ℕ → Operand → Result QueryError ℕ
shifted offset (one (integer go_int v)) = ok ((to_unsigned (2 ^ 32) v + offset) % 2 ^ 32)
shifted offset (one (integer go_int64 v)) = ok ((to_unsigned (2 ^ 32) v + offset) % 2 ^ 32)
shifted offset o = err invalid_tag_value

abbrev plain_tag : Operand → Result QueryError ℕ
plain_tag (one (integer go_uint32 v)) = ok (pos_part v)
plain_tag (one (integer go_int64 v)) = ok (to_unsigned (2 ^ 32) v)
plain_tag (one (integer go_int v)) = ok (to_unsigned (2 ^ 32) v)
plain_tag o = err invalid_tag_value

unfoldable pub equal_tag : List ℕ → Operand → Result QueryError ℕ
equal_tag field o =
    if text_eq field (codes "type")
    then shifted 999 o
    else if text_eq field (codes "category")
    then shifted 2000 o
    else plain_tag o

abbrev pub tag_element : Dynamic → Result QueryError ℕ
tag_element (integer go_uint32 v) = ok (pos_part v)
tag_element d = err invalid_value

-- The direction that the comparison of applySorting takes: that of the first criterion on the id.
abbrev pub is_ascending : List QuerySort → Bool
is_ascending [] = true
is_ascending (s ∷ ss) = if text_eq s.field (codes "id") then s.ascending else is_ascending ss

-- applySorting, with sort.Slice.
unfoldable pub apply_sorting : List QuerySort → List ℕ → List ℕ
apply_sorting [] ids = ids
apply_sorting (s ∷ ss) ids = if is_ascending (s ∷ ss) then sort ids else reverse (sort ids)

-- The pages of Execute.
unfoldable pub from_offset : ℤ → List ℕ → List ℕ
from_offset (pos zero) ids = ids
from_offset (pos (suc n)) ids = if leb (length ids) (suc n) then [] else drop (suc n) ids
from_offset (negsuc n) ids = ids

unfoldable pub up_to_limit : ℤ → List ℕ → List ℕ
up_to_limit (pos zero) ids = ids
up_to_limit (pos (suc n)) ids = if ltb (suc n) (length ids) then take (suc n) ids else ids
up_to_limit (negsuc n) ids = ids

abbrev pub page : ℤ → ℤ → List ℕ → List ℕ
page offset limit ids = up_to_limit limit (from_offset offset ids)

-- `!` is refused, whatever its child is.
abbrev pub negation : Children → Result QueryError (List ℕ)
negation no_child = err invalid_query
negation (child c no_child) = err negation_unsupported
negation (child c (child d cs)) = err invalid_query

-- The loop over the children with `&&` or `||`, and over the tags of a collection, after the first and
-- from it on. It ends at the first error.
unfoldable pub combine_rest :
    (List ℕ → List ℕ → List ℕ)
    → List (Result QueryError (List ℕ))
    → List ℕ
    → Result QueryError (List ℕ)
combine_rest combine [] ids = ok ids
combine_rest combine (r ∷ rs) ids = r >>= λ more. combine_rest combine rs (combine ids more)

unfoldable pub combine_all :
    (List ℕ → List ℕ → List ℕ) → List (Result QueryError (List ℕ)) → Result QueryError (List ℕ)
combine_all combine [] = err invalid_query
combine_all combine (r ∷ rs) = r >>= combine_rest combine rs

module _ (src : Sources) where
  -- evaluateTagInCondition: the ids of each value's tag.
  unfoldable pub each_tag : List Dynamic → List (Result QueryError (List ℕ))
  each_tag [] = []
  each_tag (d ∷ ds) = (tag_element d >>= src.find_by_tag) ∷ each_tag ds

  unfoldable pub evaluate_tag_in : List ℕ → Bool → Operand → Result QueryError (List ℕ)
  evaluate_tag_in place negated (one d) = err invalid_value
  evaluate_tag_in place negated (many []) = ok []
  evaluate_tag_in place false (many (d ∷ ds)) = combine_all union (each_tag (d ∷ ds))
  evaluate_tag_in place true (many (d ∷ ds)) = do
    r ← combine_all intersect (each_tag (d ∷ ds))
    ids ← src.get_all_ids place
    ok (difference ids r)

  -- evaluateCondition for tags, by the operator.
  unfoldable pub evaluate_tag : List ℕ → OperatorType → Criterion → Result QueryError (List ℕ)
  evaluate_tag place op_equal c = equal_tag c.field c.value >>= src.find_by_tag
  evaluate_tag place op_in c = evaluate_tag_in place false c.value
  evaluate_tag place op_not_in c = evaluate_tag_in place true c.value
  evaluate_tag place op c = err unsupported_operator

  module _ (lib : Conversions) where
    -- A field's value against the condition.
    unfoldable pub matched : Criterion → Dynamic → Result QueryError Bool
    matched c v = elim c.operator [
      | op_in ↦ match_in lib false c.field_type c.value v
      | op_not_in ↦ match_in lib true c.field_type c.value v
      | op_between ↦ match_between lib c.field_type c.value v
      | op ↦ match_condition lib c.field_type op c.value v
    ]

    abbrev is_exists : OperatorType → Bool
    is_exists op_exists = true
    is_exists op = false

    -- A round of evaluateMetadataCondition, for the metadata of an id.
    unfoldable pub meets : Criterion → Metadata → Result QueryError Bool
    meets c m = elim (lookup c.field m) [
      | none ↦ ok false
      | some v ↦ if is_exists c.operator then ok true else matched c v
    ]

    abbrev pub meets_if_found : Criterion → Result QueryError Metadata → Result QueryError Bool
    meets_if_found c (ok m) = meets c m
    meets_if_found c (err metadata_not_found) = ok false
    meets_if_found c (err e) = err e

    unfoldable pub filter_ids : Criterion → List ℕ → Result QueryError (List ℕ)
    filter_ids c [] = ok []
    filter_ids c (id ∷ ids) = do
      met ← meets_if_found c (src.get_metadata_for_id id)
      rest ← filter_ids c ids
      ok (if met then id ∷ rest else rest)

    -- evaluateMetadataCondition.
    unfoldable pub evaluate_metadata : List ℕ → Criterion → Result QueryError (List ℕ)
    evaluate_metadata place c = src.get_all_ids place >>= filter_ids c

    -- evaluateCondition behind the logical operators, by the type of the field.
    unfoldable pub evaluate_leaf : List ℕ → FieldType → Criterion → Result QueryError (List ℕ)
    evaluate_leaf place type_tag c = evaluate_tag place c.operator c
    evaluate_leaf place ft c = evaluate_metadata place c

    -- evaluateCondition, given the results of the children.
    unfoldable pub evaluate_at :
        List ℕ
        → OperatorType
        → Criterion
        → Children
        → List (Result QueryError (List ℕ))
        → Result QueryError (List ℕ)
    evaluate_at place op_and c cs rs = combine_all intersect rs
    evaluate_at place op_or c cs rs = combine_all union rs
    evaluate_at place op_not c cs rs = negation cs
    evaluate_at place op c cs rs = evaluate_leaf place c.field_type c

    unfoldable mutual
      pub evaluate : List ℕ → QueryCondition → Result QueryError (List ℕ)
      evaluate place (condition c cs) = evaluate_at place c.operator c cs (evaluate_each place 0 cs)

      -- The children from the one of this number on.
      pub evaluate_each : List ℕ → ℕ → Children → List (Result QueryError (List ℕ))
      evaluate_each place n no_child = []
      evaluate_each place n (child c cs) = evaluate (n ∷ place) c ∷ evaluate_each place (suc n) cs

    -- Execute.
    unfoldable pub execute : Query → Result QueryError QueryResult
    execute q = elim q.root_condition [
      | none ↦ err invalid_query
      | some c ↦ evaluate [] c >>= λ ids. ok (record {
        ids = page q.offset q.limit (apply_sorting q.sort_by ids);
        total_count = length ids;
      })
    ]
