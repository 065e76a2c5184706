-- ===== src/Index/Query/Parse/Runs.antt =====
-- Runs of the parser of queries on small texts.
use fragmenta.Base.{
  ℕ, ◌≡◌, refl, List, [], ◌∷◌, Option, none, some, codes, text_eq, ◌==◌, if◌then◌else◌, true, false,
  Result, err, has_prefix, has_suffix,
}
use fragmenta.Base.Int.{pos}
use fragmenta.Index.Query.{Conversions, Query}
use fragmenta.Index.Query.Parse.{
  ParseFailure, slice_panics, Scanner, trim_space, trim_start, width_of, split_from,
  parse_sort_string, parse_sort_fields, parse_sort_field, unquote,
}
use fragmenta.Index.Query.Parse.Conditions.{in_pattern, not_in_pattern, parse_query_string}
use fragmenta.Index.Query.Parse.Ends.{parse_query_string_ends}

abbrev lib : Conversions
lib = record {
  parse_int = λ s. none;
  parse_float = λ s. none;
  parse_bool = λ s. none;
  parse_time = λ layout s. none;
  match_pattern = λ p s. none;
  format = λ d. [];
  float_of_int = λ a. 0;
  int_of_float = pos;
  widen = λ a. a;
  float_lt = λ a b. false;
  float_eq = λ a b. a == b;
}

abbrev sample : List ℕ
sample = codes "x not in [1]"

-- What the two patterns find in the sample; no other text matches.
abbrev groups_of : List ℕ → Option (List (List ℕ))
groups_of pattern =
    if text_eq pattern in_pattern
    then some (codes "x not" ∷ codes "1" ∷ [])
    else (if text_eq pattern not_in_pattern then some (codes "x" ∷ codes "1" ∷ []) else none)

abbrev scan : Scanner
scan = record {
  captures = λ pattern s. if text_eq s sample then groups_of pattern else none;
  atoi = λ s. some (pos 1);
  parse_uint32 = λ s. none;
}

parse_query_string_ends_example :
    (result : Result ParseFailure Query) × (parse_query_string lib scan
        (codes "x not in [1]; limit: 1")
      ≡ some result)
parse_query_string_ends_example = parse_query_string_ends lib scan (codes "x not in [1]; limit: 1")

-- One quote alone.
unquote_panics : unquote (codes "'") ≡ err slice_panics
unfolding unquote has_prefix has_suffix
unquote_panics = refl

sorted_down : parse_sort_string (codes " -id, name") ≡ (
    record { field = codes "id"; ascending = false }
    ∷ record { field = codes "name"; ascending = true }
    ∷ [])
unfolding parse_sort_string parse_sort_fields parse_sort_field split_from trim_start width_of
    has_prefix
sorted_down = refl

-- A no-break space and an ideographic space are trimmed.
trimmed_wide : trim_space (0xC2 ∷ 0xA0 ∷ 120 ∷ 0xE3 ∷ 0x80 ∷ 0x80 ∷ []) ≡ 120 ∷ []
unfolding trim_start width_of has_prefix
trimmed_wide = refl
