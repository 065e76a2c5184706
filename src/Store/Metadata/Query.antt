-- ===== src/Store/Metadata/Query.antt =====
-- metadata.go (QueryMetadata, matchCondition) and structs.go (MetadataQuery, MetadataCondition,
-- QueryResult, ResultEntry): the search through the metadata.
pub mod Conditions
pub mod Pages
use fragmenta.Base.{
  ℕ, zero, suc, ◌+◌, ◌-◌, ◌%◌, ◌^◌, List, [], ◌∷◌, ◌++◌, length, drop, all, ltb, leb, ◌==◌,
}
use fragmenta.Base.{
  if◌then◌else◌, Bool, true, false, not, ◌&&◌, ◌||◌, Result, ok, err, text_eq, has_prefix,
}
use fragmenta.Base.Int.{ℤ, ltb_ℤ}
use fragmenta.Store.Header.{decode_int64}
use fragmenta.Store.Metadata.{Manager, Entries, MetadataError, invalid_query}

-- OpEquals to OpContains, and the numbers that name no operator.
pub data Operator : Type 0 where
  equals not_equals greater_than less_than contains unknown : Operator

pub record Condition : Type 0 where
  pub tag : ℕ
  pub operator : Operator
  pub value : List ℕ

-- MetadataQuery, with the fields that QueryMetadata reads.
pub record Query : Type 0 where
  pub conditions : List Condition
  pub limit : ℕ
  pub offset : ℕ

-- ResultEntry, with the fields that QueryMetadata fills.
pub record ResultEntry : Type 0 where
  pub metadata_id : ℕ
  pub metadata_value : List ℕ

pub record QueryResult : Type 0 where
  pub entries : List ResultEntry
  pub total_count : ℕ
  pub return_count : ℕ
  pub has_more : Bool
  pub query_time : ℕ

abbrev first_byte : List ℕ → ℕ
first_byte [] = 0
first_byte (b ∷ bs) = b

-- Two values as numbers if both have eight bytes, else by their first bytes.
unfoldable pub is_below : List ℕ → List ℕ → Bool
is_below a b =
    if leb 8 (length a) && leb 8 (length b)
    then ltb_ℤ (decode_int64 a) (decode_int64 b)
    else ltb 0 (length a) && ltb 0 (length b) && ltb (first_byte a) (first_byte b)

-- The search of OpContains, at `n` positions from the first on.
unfoldable pub some_position : ℕ → List ℕ → List ℕ → Bool
some_position zero value part = false
some_position (suc n) value part =
    let later = some_position n (drop 1 value) part in has_prefix part value || later

unfoldable pub contains_part : List ℕ → List ℕ → Bool
contains_part value part =
    if ltb (length value) (length part)
    then false
    else some_position (length value - length part + 1) value part

unfoldable pub compare : Operator → List ℕ → List ℕ → Bool
compare equals value wanted = text_eq value wanted
compare not_equals value wanted = not (text_eq value wanted)
compare greater_than value wanted = is_below wanted value
compare less_than value wanted = is_below value wanted
compare contains value wanted = contains_part value wanted
compare unknown value wanted = false

-- matchCondition.
unfoldable pub match_condition : ℕ → List ℕ → Condition → Bool
match_condition tag value condition =
    if not (tag == condition.tag) then false else compare condition.operator value condition.value

abbrev pub matches : Query → ℕ × List ℕ → Bool
matches query e = all (match_condition e.0 e.1) query.conditions

pub record Tally : Type 0 where
  pub entries : List ResultEntry
  pub total_count : ℕ
  pub return_count : ℕ

abbrev pub result_entry : ℕ × List ℕ → ResultEntry
result_entry e = record { metadata_id = e.0; metadata_value = e.1 }

-- One round of the loop, for an entry that matches.
unfoldable pub count_match : Query → ResultEntry → Tally → Tally
count_match query e t =
    let total : ℕ = (t.total_count + 1) % 2 ^ 32 in
    if ltb query.offset total && (query.limit == 0 || ltb t.return_count query.limit)
    then record {
      entries = t.entries ++ (e ∷ []);
      total_count = total;
      return_count = (t.return_count + 1) % 2 ^ 32;
    }
    else record t { total_count = total }

unfoldable pub query_entries : Query → Entries → Tally → Tally
query_entries query [] t = t
query_entries query (e ∷ m) t =
    query_entries query m (if matches query e then count_match query (result_entry e) t else t)

abbrev is_empty : List Condition → Bool
is_empty [] = true
is_empty (c ∷ cs) = false

-- QueryMetadata, for a query that is not nil. `elapsed` is the time the search took, in milliseconds.
unfoldable pub query_metadata : ℕ → Query → Manager → Result MetadataError QueryResult
query_metadata elapsed query mm =
    let t : Tally =
      query_entries query mm.metadata
        (record { entries = []; total_count = 0; return_count = 0 }) in
    if is_empty query.conditions
    then err invalid_query
    else ok (record {
      entries = t.entries;
      total_count = t.total_count;
      return_count = t.return_count;
      has_more = ltb ((query.offset + t.return_count) % 2 ^ 32) t.total_count;
      query_time = elapsed % 2 ^ 32;
    })
