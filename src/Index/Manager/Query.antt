-- ===== src/Index/Manager/Query.antt =====
-- index/index.go: FindByRange, FindCompound and intersectIDs of the index manager, with the
-- condition of a query (index/types.go).
pub mod Compound
pub mod Range
pub mod Sorting
use fragmenta.Base.{ℕ, zero, suc, ◌+◌, ◌-◌, List, [], ◌∷◌, ◌++◌, Option, none, some, ◌==◌, ltb, leb}
use fragmenta.Base.{
  if◌then◌else◌, Bool, true, false, not, ◌&&◌, any, length, take, drop, codes, text_eq,
}
use fragmenta.Base.{Result, ok, err, ◌>>=◌}
use fragmenta.Index.Manager.{IndexManager, IndexError, index_not_found, no_conditions, bad_prefix}
use fragmenta.Index.Manager.{bad_range, unsupported, panicked, find_by_key, find_by_prefix}

-- sort.SliceIsSorted and sort.Slice with `<`.
unfoldable pub is_sorted : List ℕ → Bool
is_sorted [] = true
is_sorted (x ∷ []) = true
is_sorted (x ∷ y ∷ ys) = not (ltb y x) && is_sorted (y ∷ ys)

unfoldable pub insert_sorted : ℕ → List ℕ → List ℕ
insert_sorted x [] = x ∷ []
insert_sorted x (y ∷ ys) = let rest = insert_sorted x ys in if leb x y then x ∷ y ∷ ys else y ∷ rest

unfoldable pub sort : List ℕ → List ℕ
sort [] = []
sort (x ∷ xs) = insert_sorted x (sort xs)

-- sort.Search: the first index at which the test holds, or the length.
unfoldable pub first_where : (ℕ → Bool) → List ℕ → ℕ
first_where p [] = 0
first_where p (x ∷ xs) = let i = first_where p xs in if p x then 0 else suc i

abbrev pub or_not_found : List ℕ → Result IndexError (List ℕ)
or_not_found [] = err index_not_found
or_not_found (x ∷ xs) = ok (x ∷ xs)

-- FindByRange, for the ids that it finds: a slice of a negative length panics.
unfoldable pub slice_between : ℕ → ℕ → List ℕ → Result IndexError (List ℕ)
slice_between start end ids =
    let start_idx = first_where (leb start) ids in
    let end_idx = first_where (ltb end) ids in
    if start_idx == length ids
    then err index_not_found
    else if ltb end_idx start_idx
    then err panicked
    else or_not_found (take (end_idx - start_idx) (drop start_idx ids))

abbrev pub arranged : List ℕ → List ℕ
arranged ids = if is_sorted ids then ids else sort ids

unfoldable pub find_by_range : ℕ → ℕ → ℕ → IndexManager → Result IndexError (List ℕ)
find_by_range tag start end im =
    find_by_key tag im >>= λ ids. slice_between start end (arranged ids)

-- The dynamic value of a condition: a string, a []uint32, or something else.
pub data ConditionValue : Type 0 where
  text : List ℕ → ConditionValue
  numbers : List ℕ → ConditionValue
  other : ConditionValue

-- IndexQueryCondition.
pub record IndexQueryCondition : Type 0 where
  pub tag : ℕ
  pub operation : List ℕ
  pub value : ConditionValue

abbrev find_text : IndexManager → ℕ → ConditionValue → Result IndexError (List ℕ)
find_text im tag (text prefix) = ok (find_by_prefix tag prefix im)
find_text im tag (numbers ns) = err bad_prefix
find_text im tag other = err bad_prefix

abbrev find_pair : IndexManager → ℕ → List ℕ → Result IndexError (List ℕ)
find_pair im tag (start ∷ end ∷ []) = find_by_range tag start end im
find_pair im tag [] = err bad_range
find_pair im tag (start ∷ []) = err bad_range
find_pair im tag (start ∷ end ∷ more ∷ ns) = err bad_range

abbrev find_numbers : IndexManager → ℕ → ConditionValue → Result IndexError (List ℕ)
find_numbers im tag (numbers ns) = find_pair im tag ns
find_numbers im tag (text prefix) = err bad_range
find_numbers im tag other = err bad_range

-- The switch of FindCompound, and its test of the error.
unfoldable pub find_condition : IndexManager → IndexQueryCondition → Result IndexError (List ℕ)
find_condition im c =
    if text_eq c.operation (codes "eq")
    then find_by_key c.tag im
    else if text_eq c.operation (codes "prefix")
    then find_text im c.tag c.value
    else if text_eq c.operation (codes "range")
    then find_numbers im c.tag c.value
    else err unsupported

abbrev pub or_empty : Result IndexError (List ℕ) → Result IndexError (List ℕ)
or_empty (err index_not_found) = ok []
or_empty (err e) = err e
or_empty (ok ids) = ok ids

-- intersectIDs.
unfoldable pub keep_in : List ℕ → List ℕ → List ℕ
keep_in b [] = []
keep_in b (x ∷ xs) = let rest = keep_in b xs in if any (λ y. y == x) b then x ∷ rest else rest

unfoldable pub intersect_ids : List ℕ → List ℕ → List ℕ
intersect_ids [] b = []
intersect_ids (x ∷ a) [] = []
intersect_ids (x ∷ a) (y ∷ b) = keep_in (y ∷ b) (x ∷ a)

-- The loop over the conditions after the first.
unfoldable pub narrow :
    IndexManager → List IndexQueryCondition → List ℕ → Result IndexError (List ℕ)
narrow im [] result = ok result
narrow im (c ∷ cs) result =
    or_empty (find_condition im c) >>= λ ids. narrow im cs (intersect_ids result ids)

-- FindCompound.
unfoldable pub find_compound : List IndexQueryCondition → IndexManager → Result IndexError (List ℕ)
find_compound [] im = err no_conditions
find_compound (c ∷ cs) im = or_empty (find_condition im c) >>= λ ids. narrow im cs ids
