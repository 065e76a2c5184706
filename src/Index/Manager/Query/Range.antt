-- ===== src/Index/Manager/Query/Range.antt =====
-- FindByRange against the sorted ids in its bounds.
use fragmenta.Base.{ℕ, ◌-◌, ◌≤◌, ◌<◌, ◌≡◌, refl, sym, ap, ◌∙◌, arith, List, [], ◌∷◌}
use fragmenta.Base.{ltb, leb, if◌then◌else◌, true, ◌&&◌, occurrences}
use fragmenta.Base.{length, take, drop, All, Bool-cases, Option-cases, inl, inr}
use fragmenta.Base.Map.{nat_eq, lookup}
use fragmenta.Index.Manager.{IndexManager, find_by_key, ids_of}
use fragmenta.Index.Manager.Query.{is_sorted, first_where, or_not_found, slice_between}
use fragmenta.Index.Manager.Query.{arranged, find_by_range}
use mathlib.Core.Path.{subst}
use fragmenta.Index.Manager.Query.Sorting.{IsSorted, All-map, arranged-IsSorted, count-arranged}
use fragmenta.Index.Manager.Prefixes.{found, found-find_by_key}

-- The ids from `start` to `end`.
abbrev pub select : ℕ → ℕ → List ℕ → List ℕ
select start end [] = []
select start end (x ∷ xs) =
    if leb start x && leb x end then x ∷ select start end xs else select start end xs

select-none : (start end : ℕ) (xs : List ℕ) → All (λ x. end < x) xs → select start end xs ≡ []
select-none start end [] p = refl
select-none start end (x ∷ xs) (p, ps) = ground (arith, select-none start end xs ps)

-- Where all ids are large enough.
take-first_where :
    (start end : ℕ) (xs : List ℕ)
    → All (λ x. start ≤ x) xs
    → IsSorted xs
    → take (first_where (ltb end) xs) xs ≡ select start end xs
unfolding first_where
take-first_where start end [] p s = refl
take-first_where start end (x ∷ xs) (p, ps) (below, s) = elim (Bool-cases (ltb end x)) [
  | inl e ↦
      ground
        (arith, e, select-none start end xs (All-map xs (λ v h. omega (arith, beyond e, h)) below))
  | inr e ↦ ground (arith, e, take-first_where start end xs ps s)
]
  where
    beyond : ltb end x ≡ true → end < x
    beyond e = ground arith

slice-select :
    (start end : ℕ) (xs : List ℕ)
    → start ≤ end
    → IsSorted xs
    → take
        (first_where (ltb end) xs - first_where (leb start) xs)
        (drop (first_where (leb start) xs) xs)
      ≡ select start end xs
unfolding first_where
slice-select start end [] le s = refl
slice-select start end (x ∷ xs) le (below, s) = elim (Bool-cases (leb start x)) [
  | inl e ↦ ground (arith, e, from_start e)
  | inr e ↦ ground (arith, e, slice-select start end xs le s)
]
  where
    large : leb start x ≡ true → start ≤ x
    large e = ground arith

    minus_none : first_where (ltb end) (x ∷ xs) - 0 ≡ first_where (ltb end) (x ∷ xs)
    minus_none = omega arith

    from_start :
        leb start x ≡ true
        → take (first_where (ltb end) (x ∷ xs) - 0) (x ∷ xs) ≡ select start end (x ∷ xs)
    from_start e =
        ap (λ i. take i (x ∷ xs)) minus_none
        ∙ take-first_where start end (x ∷ xs)
            (large e, All-map xs (λ v h. omega (arith, large e, h)) below) (below, s)

first_where-length :
    (start end : ℕ) (xs : List ℕ)
    → first_where (leb start) xs ≡ length xs
    → select start end xs ≡ []
unfolding first_where
first_where-length start end [] h = refl
first_where-length start end (x ∷ xs) h = ground (arith, first_where-length start end xs)

first_where_le :
    (start end : ℕ) (xs : List ℕ)
    → start ≤ end
    → first_where (leb start) xs ≤ first_where (ltb end) xs
unfolding first_where
first_where_le start end [] le = omega arith
first_where_le start end (x ∷ xs) le = ground (arith, first_where_le start end xs le)

slice_between-select :
    (start end : ℕ) (xs : List ℕ)
    → start ≤ end
    → IsSorted xs
    → slice_between start end xs ≡ or_not_found (select start end xs)
unfolding slice_between
slice_between-select start end xs le s = ground (
  arith,
  slice-select start end xs le s,
  first_where_le start end xs le,
  first_where-length start end xs,
)

select-IsSorted : (start end : ℕ) (xs : List ℕ) → IsSorted xs → IsSorted (select start end xs)
select-IsSorted start end [] s = tt
select-IsSorted start end (x ∷ xs) (below, s) = elim (Bool-cases (leb start x && leb x end)) [
  | inl e ↦ rw e (All-select (λ v. x ≤ v) xs below, select-IsSorted start end xs s)
  | inr e ↦ rw e (select-IsSorted start end xs s)
]
  where
    All-select : (P : ℕ → Type 0) (ys : List ℕ) → All P ys → All P (select start end ys)
    All-select P [] ps = tt
    All-select P (y ∷ ys) (p, ps) = elim (Bool-cases (leb start y && leb y end)) [
      | inl e ↦ rw e (p, All-select P ys ps)
      | inr e ↦ rw e (All-select P ys ps)
    ]

count-select :
    (start end x : ℕ) (xs : List ℕ)
    → occurrences x (select start end xs)
      ≡ (if leb start x && leb x end then occurrences x xs else 0)
count-select start end x [] = ground arith
count-select start end x (y ∷ ys) = ground (arith, count-select start end x ys)

-- The ids of a tag that a range selects, in order.
abbrev pub range_ids : ℕ → ℕ → ℕ → IndexManager → List ℕ
range_ids tag start end im = select start end (arranged (ids_of tag im.metadata_indices))

find_by_range-select :
    (tag start end : ℕ) (im : IndexManager)
    → start ≤ end
    → find_by_range tag start end im ≡ or_not_found (range_ids tag start end im)
unfolding find_by_range find_by_key
find_by_range-select tag start end im le = elim (Option-cases (lookup tag im.metadata_indices)) [
  | inl e ↦ unfold is_sorted in ground (arith, e)
  | inr (ids, e) ↦
      ground (arith, e, slice_between-select start end (arranged ids) le (arranged-IsSorted ids))
]

found-or_not_found : (ids : List ℕ) → found (or_not_found ids) ≡ ids
found-or_not_found [] = refl
found-or_not_found (x ∷ xs) = refl

-- For start at most end, FindByRange returns ids in ascending order, an id as often as FindByKey does
-- for the tag if it lies within the bounds, both included, and never if not. If there is none, the
-- index is not found; it never panics.
pub find_by_range_lem :
    (tag start end : ℕ) (im : IndexManager)
    → start ≤ end
    → (find_by_range tag start end im ≡ or_not_found (found (find_by_range tag start end im)))
      × IsSorted (found (find_by_range tag start end im))
      × ((x : ℕ)
          → occurrences x (found (find_by_range tag start end im))
            ≡ (if leb start x && leb x end then occurrences x (found (find_by_key tag im)) else 0))
find_by_range_lem tag start end im le =
    let same =
      sym (found-or_not_found ids) ∙ ap found (sym (find_by_range-select tag start end im le)) in
    subst Holds same (
      find_by_range-select tag start end im le,
      select-IsSorted start end (arranged listed) (arranged-IsSorted listed),
      λ x. ground (
        arith,
        count-select start end x (arranged listed),
        count-arranged x listed,
        ap (occurrences x) (found-find_by_key tag im),
      ),
    )
  where
    listed : List ℕ
    listed = ids_of tag im.metadata_indices

    ids : List ℕ
    ids = range_ids tag start end im

    Holds : List ℕ → Type 0
    Holds found_ids =
        (find_by_range tag start end im ≡ or_not_found found_ids)
        × IsSorted found_ids
        × ((x : ℕ)
            → occurrences x found_ids ≡ (
                if leb start x && leb x end then occurrences x (found (find_by_key tag im)) else 0))
