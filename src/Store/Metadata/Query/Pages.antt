-- ===== src/Store/Metadata/Query/Pages.antt =====
-- QueryMetadata returns one page of all the matches.
use fragmenta.Base.{ℕ, zero, suc, ◌+◌, ◌-◌, ◌≤◌, ◌%◌, ◌<◌, ◌≡◌, ◌^◌, refl, sym, ap, ◌∙◌, arith}
use fragmenta.Base.{List, [], ◌∷◌, ◌++◌, length, take, drop, ok, if◌then◌else◌, Bool, ltb, leb}
use fragmenta.Base.{◌==◌, ◌&&◌, ◌||◌, length-append, length-take, length-drop}
use fragmenta.Store.Metadata.{Manager, Entries}
use fragmenta.Store.Metadata.Query.{Query, ResultEntry, Tally, matches, result_entry}
use fragmenta.Store.Metadata.Query.{count_match, query_entries, query_metadata, Condition}
use mathlib.Core.List.{append_assoc, append-nil}
use native.Mathlib.Nat.{mod-eq_of_lt}

-- All matches, in the order of the map.
unfoldable pub found : Query → Entries → List ResultEntry
found query [] = []
found query (e ∷ m) =
    let others = found query m in if matches query e then result_entry e ∷ others else others

-- What an offset and a limit cut out of a list; the limit 0 stands for none.
unfoldable pub page : ℕ → ℕ → List ResultEntry → List ResultEntry
page offset limit xs = if limit == 0 then drop offset xs else take limit (drop offset xs)

module _ {A : Type 0} where
  drop-snoc :
      (n : ℕ) (xs : List A) (x : A)
      → drop n (xs ++ (x ∷ [])) ≡ (if leb n (length xs) then drop n xs ++ (x ∷ []) else drop n xs)
  drop-snoc zero xs x = ground arith
  drop-snoc (suc zero) [] x = ground arith
  drop-snoc (suc (suc n)) [] x = ground arith
  drop-snoc (suc n) (y ∷ xs) x = ground (arith, drop-snoc n xs x)

  take-snoc :
      (n : ℕ) (xs : List A) (x : A)
      → take n (xs ++ (x ∷ [])) ≡ (if ltb (length xs) n then take n xs ++ (x ∷ []) else take n xs)
  take-snoc zero [] x = ground arith
  take-snoc zero (y ∷ xs) x = ground arith
  take-snoc (suc zero) [] x = ground arith
  take-snoc (suc (suc n)) [] x = ground arith
  take-snoc (suc n) (y ∷ xs) x = ground (arith, take-snoc n xs x)

module _ (query : Query) where
  cut : List ResultEntry → List ResultEntry
  unfolding page
  cut = page query.offset query.limit

  tally : List ResultEntry → Tally
  tally xs = record { entries = cut xs; total_count = length xs; return_count = length (cut xs) }

  grows : List ResultEntry → Bool
  grows xs =
      ltb query.offset (length xs + 1) && (query.limit == 0 || ltb (length (cut xs)) query.limit)

  length-cut : (xs : List ResultEntry) → length (cut xs) ≤ length xs - query.offset
  unfolding cut
  length-cut xs =
      ground (arith, length-take query.limit (drop query.offset xs), length-drop query.offset xs)

  cut-snoc :
      (xs : List ResultEntry) (e : ResultEntry)
      → cut (xs ++ (e ∷ [])) ≡ (if grows xs then cut xs ++ (e ∷ []) else cut xs)
  unfolding cut grows
  cut-snoc xs e = ground (
    arith,
    drop-snoc query.offset xs e,
    take-snoc query.limit (drop query.offset xs) e,
    length-take query.limit (drop query.offset xs),
  )

  counted :
      (xs : List ResultEntry) (e : ResultEntry)
      → length xs + 1 < 2 ^ 32
      → count_match query e (tally xs) ≡ tally (xs ++ (e ∷ []))
  unfolding count_match tally grows
  counted xs e h = ground (
    arith,
    cut-snoc xs e,
    mod-eq_of_lt h,
    mod-eq_of_lt (let p : length (cut xs) + 1 < 2 ^ 32 = omega (arith, length-cut xs) in p),
    length-append xs (e ∷ []),
    length-append (cut xs) (e ∷ []),
  )

  query_entries-tally :
      (m : Entries) (xs : List ResultEntry)
      → length xs + length m < 2 ^ 32
      → query_entries query m (tally xs) ≡ tally (xs ++ found query m)
  unfolding query_entries found
  query_entries-tally [] xs h = ap tally (sym (append-nil xs))
  query_entries-tally (e ∷ m) xs h = ground (
    arith,
    counted xs (result_entry e),
    query_entries-tally m xs,
    query_entries-tally m (xs ++ (result_entry e ∷ [])),
    length-append xs (result_entry e ∷ []),
    append_assoc xs (result_entry e ∷ []) (found query m),
  )

  length-found : (m : Entries) → length (found query m) ≤ length m
  unfolding found
  length-found [] = omega arith
  length-found (e ∷ m) = ground (arith, length-found m)

drop-nil : (n : ℕ) → drop {A = ResultEntry} n [] ≡ []
drop-nil zero = refl
drop-nil (suc n) = refl

take-nil : (n : ℕ) → take {A = ResultEntry} n [] ≡ []
take-nil zero = refl
take-nil (suc n) = refl

tally-nil :
    (query : Query) → tally query [] ≡ record { entries = []; total_count = 0; return_count = 0 }
unfolding tally cut page
tally-nil query = ground (arith, drop-nil query.offset, take-nil query.limit)

-- The sum in the comparison wraps around only where nothing is returned.
more_follow :
    (query : Query) (xs : List ResultEntry)
    → length xs < 2 ^ 32
    → query.offset < 2 ^ 32
    → (query.offset + length (cut query xs)) % 2 ^ 32 ≡ query.offset + length (cut query xs)
more_follow query xs few small = mod-eq_of_lt (omega (arith, length-cut query xs))

-- QueryMetadata, for a query with a condition, returns the page of all the matches that the offset
-- and the limit cut out, in the order of the map, with the number of all matches, the number
-- returned, and whether matches follow the page; its counts do not wrap around, for fewer than
-- 2 ^ 32 entries and an offset that fits 32 bits.
pub query_metadata-page :
    (elapsed : ℕ) (query : Query) (c : Condition) (cs : List Condition) (mm : Manager)
    → query.conditions ≡ c ∷ cs
    → length mm.metadata < 2 ^ 32
    → query.offset < 2 ^ 32
    → query_metadata elapsed query mm
      ≡ ok (record {
        entries = page query.offset query.limit (found query mm.metadata);
        total_count = length (found query mm.metadata);
        return_count = length (page query.offset query.limit (found query mm.metadata));
        has_more =
            ltb
              (query.offset + length (page query.offset query.limit (found query mm.metadata)))
              (length (found query mm.metadata));
        query_time = elapsed % 2 ^ 32;
      })
unfolding query_metadata cut tally
query_metadata-page elapsed query c cs mm some_condition few small =
    rw (run, some_condition) (ground (arith, unwrapped))
  where
    matched : List ResultEntry
    matched = found query mm.metadata

    run :
        query_entries query mm.metadata (record { entries = []; total_count = 0; return_count = 0 })
        ≡ tally query matched
    run =
        ap (query_entries query mm.metadata) (sym (tally-nil query))
        ∙ query_entries-tally query mm.metadata [] (omega (arith, few))

    unwrapped :
        (query.offset + length (cut query matched)) % 2 ^ 32
        ≡ query.offset + length (cut query matched)
    unwrapped = more_follow query matched (omega (arith, length-found query mm.metadata, few)) small
