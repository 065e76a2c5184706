-- ===== src/Index/Manager/Query/Compound.antt =====
-- FindCompound against the tests that its conditions make.
use fragmenta.Base.{ℕ, ◌≤◌, ◌≡◌, refl, ap, ◌∙◌, arith, List, [], ◌∷◌, codes}
use fragmenta.Base.{
  ◌==◌, leb, if◌then◌else◌, Bool, true, ◌&&◌, any, all, All, occurrences, has_prefix,
}
use fragmenta.Base.{ok, text_eq}
use fragmenta.Index.Tree.{decimal}
use fragmenta.Index.Manager.{IndexManager, find_by_key, find_by_prefix}
use fragmenta.Index.Manager.Prefixes.{Reached, found, find_by_prefix-find_by_key}
use fragmenta.Index.Manager.Query.{
  ConditionValue, text, numbers, IndexQueryCondition, find_condition, or_empty,
}
use fragmenta.Index.Manager.Query.{
  keep_in, intersect_ids, narrow, find_compound, find_by_range, or_not_found,
}
use fragmenta.Index.Manager.Query.Range.{find_by_range_lem}

-- What a condition of each supported operation asks of an id.
pub data Test : Type 0 where
  equal : ConditionValue → Test
  starts : List ℕ → Test
  lies : ℕ → ℕ → Test

abbrev pub holds : Test → ℕ → Bool
holds (equal v) x = true
holds (starts prefix) x = has_prefix prefix (decimal x)
holds (lies start end) x = leb start x && leb x end

abbrev pub IsProper : ℕ × Test → Type 0
IsProper (tag, equal v) = Unit
IsProper (tag, starts prefix) = Unit
IsProper (tag, lies start end) = start ≤ end

abbrev pub condition : ℕ × Test → IndexQueryCondition
condition (tag, equal v) = record { tag = tag; operation = codes "eq"; value = v }
condition (tag, starts prefix) = record {
  tag = tag;
  operation = codes "prefix";
  value = text prefix;
}
condition (tag, lies start end) = record {
  tag = tag;
  operation = codes "range";
  value = numbers (start ∷ end ∷ []);
}

abbrev pub conditions : List (ℕ × Test) → List IndexQueryCondition
conditions [] = []
conditions (t ∷ ts) = condition t ∷ conditions ts

-- The id stands in the tag's list and passes the test.
abbrev pub meets : IndexManager → ℕ → ℕ × Test → Bool
meets im x (tag, test) = holds test x && leb 1 (occurrences x (found (find_by_key tag im)))

or_empty-or_not_found : (ids : List ℕ) → or_empty (or_not_found ids) ≡ ok ids
or_empty-or_not_found [] = refl
or_empty-or_not_found (x ∷ xs) = refl

or_empty-find_by_key :
    (tag : ℕ) (im : IndexManager) → or_empty (find_by_key tag im) ≡ ok (found (find_by_key tag im))
unfolding find_by_key
or_empty-find_by_key tag im = ground arith

-- The ids that a condition finds are those that meet it.
abbrev Finds : IndexManager → ℕ × Test → Type 0
Finds im t =
    (ids : List ℕ) × (or_empty (find_condition im (condition t)) ≡ ok ids)
    × ((x : ℕ) → leb 1 (occurrences x ids) ≡ meets im x t)

find_condition-Finds : (im : IndexManager) (t : ℕ × Test) → Reached im → IsProper t → Finds im t
unfolding find_condition text_eq
find_condition-Finds im (tag, equal v) r proper =
    (found (find_by_key tag im), or_empty-find_by_key tag im, λ x. refl)
find_condition-Finds im (tag, starts prefix) r proper = (
  find_by_prefix tag prefix im,
  refl,
  λ x. ground (arith, find_by_prefix-find_by_key tag x prefix im r),
)
find_condition-Finds im (tag, lies start end) r proper =
    let (result, sorted, counts) = find_by_range_lem tag start end im proper in
    (
      found (find_by_range tag start end im),
      ap or_empty result ∙ or_empty-or_not_found (found (find_by_range tag start end im)),
      λ x. ground (arith, counts x),
    )

any-count : (x : ℕ) (xs : List ℕ) → any (λ y. y == x) xs ≡ leb 1 (occurrences x xs)
any-count x [] = refl
any-count x (y ∷ ys) = ground (arith, any-count x ys)

count-keep_in :
    (x : ℕ) (b a : List ℕ)
    → occurrences x (keep_in b a) ≡ (if leb 1 (occurrences x b) then occurrences x a else 0)
unfolding keep_in
count-keep_in x b [] = ground arith
count-keep_in x b (y ∷ a) = ground (arith, count-keep_in x b a, any-count x b, any-count y b)

count-intersect_ids :
    (x : ℕ) (a b : List ℕ)
    → leb 1 (occurrences x (intersect_ids a b))
      ≡ (leb 1 (occurrences x a) && leb 1 (occurrences x b))
unfolding intersect_ids
count-intersect_ids x [] b = ground arith
count-intersect_ids x (y ∷ a) [] = ground arith
count-intersect_ids x (y ∷ a) (z ∷ b) = ground (arith, count-keep_in x (z ∷ b) (y ∷ a))

narrow-meets :
    (im : IndexManager) (ts : List (ℕ × Test)) (result : List ℕ)
    → Reached im
    → All IsProper ts
    → (ids : List ℕ) × (narrow im (conditions ts) result ≡ ok ids)
      × ((x : ℕ)
          → leb 1 (occurrences x ids) ≡ (leb 1 (occurrences x result) && all (meets im x) ts))
unfolding narrow
narrow-meets im [] result r proper = (result, refl, λ x. ground arith)
narrow-meets im (t ∷ ts) result r (p, ps) =
    let (one, found_one, counts_one) = find_condition-Finds im t r p in
    let (ids, found_ids, counts) = narrow-meets im ts (intersect_ids result one) r ps in
    (
      ids,
      rw found_one found_ids,
      λ x. ground (arith, counts x, count-intersect_ids x result one, counts_one x),
    )

-- In every state that AddIndex, RemoveIndex, GetPrefixTree and UpdateIndices lead to from a new
-- manager that has loaded no index file, FindCompound succeeds for one or more conditions with the
-- operations eq, prefix and range, the ranges with start at most end, and its result has exactly
-- the ids that FindByKey finds for each condition's tag and that pass each condition's test.
pub find_compound-meets :
    (im : IndexManager) (t : ℕ × Test) (ts : List (ℕ × Test))
    → Reached im
    → All IsProper (t ∷ ts)
    → (ids : List ℕ) × (find_compound (conditions (t ∷ ts)) im ≡ ok ids)
      × ((x : ℕ) → leb 1 (occurrences x ids) ≡ all (meets im x) (t ∷ ts))
unfolding find_compound
find_compound-meets im t ts r (p, ps) =
    let (one, found_one, counts_one) = find_condition-Finds im t r p in
    let (ids, found_ids, counts) = narrow-meets im ts one r ps in
    (ids, rw found_one found_ids, λ x. ground (arith, counts x, counts_one x))
