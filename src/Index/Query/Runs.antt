-- ===== src/Index/Query/Runs.antt =====
-- Runs of queries on small data.
use mathlib.Core.List.{reverse}
use fragmenta.Base.{
  ℕ, arith, ◌+◌, ◌≡◌, refl, List, [], ◌∷◌, ◌++◌, none, some, codes, true, false, not, ◌&&◌,
}
use fragmenta.Base.{ok}
use fragmenta.Base.Int.{pos, pos_part}
use fragmenta.Index.Manager.{IndexManager, new_index_manager, add_index, find_by_key}
use fragmenta.Index.Query.{
  integer, go_int, go_int64, go_uint32, one, many, op_and, op_equal, op_greater, op_not_in,
}
use fragmenta.Index.Query.{
  type_tag, type_integer, Criterion, QueryCondition, condition, no_child, child, Query, QueryResult,
  Conversions,
}
use fragmenta.Index.Query.Evaluate.{
  Sources, default_sources, Metadata, evaluate, execute, each_tag, evaluate_each, evaluate_at,
  combine_all, combine_rest, evaluate_leaf, evaluate_tag, evaluate_tag_in, evaluate_metadata,
  filter_ids, meets, matched, equal_tag, intersect, difference, keep_out,
}
use fragmenta.Index.Query.Match.{match_condition, to_int64, int64_of}
use fragmenta.Index.Manager.Query.{keep_in}
use fragmenta.Base.Map.{nat_eq, text_keys, lookup, insert}
use fragmenta.Base.{text_eq}
use fragmenta.Index.Query.Combine.{member, all_listed}
use fragmenta.Index.Query.Meaning.{means, IsAnswerable, AreAnswerable, evaluate-means}
use fragmenta.Index.Query.NotIn.{evaluate-not_in}
use fragmenta.Index.Query.Pages.{with_page, execute-pages}

-- A standard library that converts nothing.
abbrev lib : Conversions
lib = record {
  parse_int = λ s. none;
  parse_float = λ s. none;
  parse_bool = λ s. none;
  parse_time = λ layout s. none;
  match_pattern = λ p s. none;
  format = λ d. [];
  float_of_int = pos_part;
  int_of_float = pos;
  widen = λ b. b;
  float_lt = λ a b. false;
  float_eq = λ a b. false;
}

-- 4, 5 and 6 stand under the tag 7, and 5 under the tag 8; the ages of 4, 5 and 6 are 3, 10 and 20.
abbrev manager : IndexManager
manager =
    add_index 4 8 5 (add_index 3 7 6 (add_index 2 7 5 (add_index 1 7 4 (new_index_manager 0 none))))

abbrev ages : List (ℕ × Metadata)
ages =
    (4, (codes "age", integer go_int (pos 3)) ∷ [])
    ∷ (5, (codes "age", integer go_int (pos 10)) ∷ [])
    ∷ (6, (codes "age", integer go_int64 (pos 20)) ∷ [])
    ∷ []

-- The calls list the ids as they stand in the cache, or the other way round.
abbrev src : Sources
src = default_sources (λ place ids. ids) ages manager

abbrev reversing : Sources
reversing = default_sources (λ place ids. reverse ids) ages manager

abbrev both : Criterion
both = record { field = []; field_type = type_integer; operator = op_and; value = many [] }

abbrev tagged : Criterion
tagged = record {
  field = codes "label";
  field_type = type_tag;
  operator = op_equal;
  value = one (integer go_uint32 (pos 7));
}

abbrev older : Criterion
older = record {
  field = codes "age";
  field_type = type_integer;
  operator = op_greater;
  value = one (integer go_int64 (pos 5));
}

abbrev tagged_and_older : QueryCondition
tagged_and_older =
    condition both (child (condition tagged no_child) (child (condition older no_child) no_child))

abbrev query : Query
query = record {
  root_condition = some tagged_and_older;
  sort_by = record { field = codes "id"; ascending = true } ∷ [];
  limit = pos 1;
  offset = pos 0;
}

tagged_and_older-IsAnswerable : IsAnswerable src lib [] tagged_and_older
unfolding IsAnswerable AreAnswerable evaluate_leaf evaluate_tag evaluate_metadata filter_ids meets
    matched match_condition to_int64 int64_of equal_tag default_sources add_index new_index_manager
    insert lookup find_by_key text_eq
tagged_and_older-IsAnswerable =
    (tt, ((λ e. cc, (4 ∷ 5 ∷ 6 ∷ [], refl)), ((λ e. cc, (5 ∷ 6 ∷ [], refl)), tt)))

evaluate-means_example :
    (ids : List ℕ) × (evaluate src lib [] tagged_and_older ≡ ok ids)
    × ((x : ℕ) → member x ids ≡ means src lib [] tagged_and_older x)
evaluate-means_example = evaluate-means src lib [] tagged_and_older tagged_and_older-IsAnswerable

-- The condition on the age alone finds 5 and 6 in the order of the call.
older_test : evaluate src lib [] (condition older no_child) ≡ ok (5 ∷ 6 ∷ [])
unfolding evaluate evaluate_each evaluate_at evaluate_leaf evaluate_metadata filter_ids meets
    matched match_condition to_int64 int64_of default_sources insert lookup text_eq
older_test = refl

older_reversed_test : evaluate reversing lib [] (condition older no_child) ≡ ok (6 ∷ 5 ∷ [])
unfolding evaluate evaluate_each evaluate_at evaluate_leaf evaluate_metadata filter_ids meets
    matched match_condition to_int64 int64_of default_sources insert lookup text_eq
older_reversed_test = refl

abbrev older_query : Query
older_query = record query { root_condition = some (condition older no_child) }

execute-pages_example :
    (first others all : QueryResult) × (execute src lib (with_page (pos 0) (pos 1) older_query)
      ≡ ok first)
    × (execute reversing lib (with_page (pos (0 + 1)) (pos 0) older_query) ≡ ok others)
    × (execute src lib (with_page (pos 0) (pos 0) older_query) ≡ ok all)
    × (first.ids ++ others.ids ≡ all.ids)
execute-pages_example =
    execute-pages src reversing src lib older_query (condition older no_child)
      (record { field = codes "id"; ascending = true }) [] (5 ∷ 6 ∷ []) (6 ∷ 5 ∷ []) (5 ∷ 6 ∷ [])
      refl refl older_test older_reversed_test older_test (λ x. refl) (λ x. omega arith) 0 0

-- 4 and 6 stand under 7 only, and `nin` of 7 and 8 finds them.
not_tagged_test :
    evaluate src lib [] (
      condition
        (record {
          field = codes "label";
          field_type = type_tag;
          operator = op_not_in;
          value = many (integer go_uint32 (pos 7) ∷ integer go_uint32 (pos 8) ∷ []);
        })
        no_child)
    ≡ ok (4 ∷ 6 ∷ [])
unfolding evaluate evaluate_each evaluate_at combine_all combine_rest evaluate_leaf evaluate_tag
    evaluate_tag_in each_tag difference keep_out intersect keep_in default_sources add_index
    new_index_manager insert lookup find_by_key text_eq
not_tagged_test = refl

evaluate-not_in_example : member 4 (4 ∷ 6 ∷ []) ≡ (
    member 4 (4 ∷ 5 ∷ 6 ∷ [])
    && not
        (all_listed 4 (each_tag src (integer go_uint32 (pos 7) ∷ integer go_uint32 (pos 8) ∷ []))))
unfolding default_sources
evaluate-not_in_example =
    evaluate-not_in src lib [] (codes "label") (integer go_uint32 (pos 7))
      (integer go_uint32 (pos 8) ∷ []) no_child (4 ∷ 5 ∷ 6 ∷ []) (4 ∷ 6 ∷ []) known not_tagged_test
      4
  where
    known : src.get_all_ids [] ≡ ok (4 ∷ 5 ∷ 6 ∷ [])
    known = refl
