-- ===== src/Index/Query/Pages.antt =====
-- The page of the ids that Execute returns.
use fragmenta.Base.{
  ℕ, zero, suc, ◌+◌, ◌≤◌, min, ◌≡◌, refl, sym, ap, ◌∙◌, arith, List, [], ◌∷◌, ◌++◌, some,
}
use fragmenta.Base.{
  true, false, if◌then◌else◌, ◌==◌, Bool-cases, inl, inr, length, take, drop, All, ok,
}
use fragmenta.Base.{occurrences}
use mathlib.Core.List.{reverse}
use fragmenta.Base.Int.{ℤ, pos}
use fragmenta.Index.Manager.Query.{sort}
use fragmenta.Index.Manager.Query.Sorting.{IsSorted, IsSorted-sort, count-sort}
use fragmenta.Index.Query.{Conversions, QueryCondition, QuerySort, Query, QueryResult}
use fragmenta.Index.Query.Evaluate.{
  Sources, evaluate, execute, apply_sorting, is_ascending, from_offset, up_to_limit, page,
}

-- The ids that a limit leaves of `n`.
abbrev pub limited : ℤ → ℕ → ℕ
limited (pos (suc limit)) n = min (suc limit) n
limited limit n = n

drop-append_all : (n : ℕ) (ids : List ℕ) → length ids ≤ n → drop n ids ≡ []
drop-append_all zero [] h = refl
drop-append_all zero (x ∷ ids) h = absurd (omega (arith, h))
drop-append_all (suc n) [] h = refl
drop-append_all (suc n) (x ∷ ids) h = drop-append_all n ids (omega (arith, h))

take-all : (n : ℕ) (ids : List ℕ) → length ids ≤ n → take n ids ≡ ids
take-all zero [] h = refl
take-all zero (x ∷ ids) h = absurd (omega (arith, h))
take-all (suc n) [] h = refl
take-all (suc n) (x ∷ ids) h = ap (λ xs. x ∷ xs) (take-all n ids (omega (arith, h)))

from_offset-drop : (n : ℕ) (ids : List ℕ) → from_offset (pos n) ids ≡ drop n ids
unfolding from_offset
from_offset-drop zero ids = refl
from_offset-drop (suc n) ids = ground (arith, drop-append_all (suc n) ids)

up_to_limit-take : (n : ℕ) (ids : List ℕ) → up_to_limit (pos (suc n)) ids ≡ take (suc n) ids
unfolding up_to_limit
up_to_limit-take n ids = ground (arith, take-all (suc n) ids)

take-append-drop : (k : ℕ) (ids : List ℕ) → take k ids ++ drop k ids ≡ ids
take-append-drop zero ids = refl
take-append-drop (suc k) [] = refl
take-append-drop (suc k) (x ∷ ids) = ap (λ xs. x ∷ xs) (take-append-drop k ids)

drop_nil : (n : ℕ) → ◌≡◌ {A = List ℕ} (drop n []) []
drop_nil zero = refl
drop_nil (suc n) = refl

drop-drop : (o k : ℕ) (ids : List ℕ) → drop k (drop o ids) ≡ drop (o + k) ids
drop-drop zero k ids = let e : k ≡ 0 + k = omega arith in ap (λ n. drop n ids) e
drop-drop (suc o) zero [] = sym (drop_nil (suc o + 0))
drop-drop (suc o) (suc k) [] = sym (drop_nil (suc o + suc k))
drop-drop (suc o) k (x ∷ ids) =
    let e : suc (o + k) ≡ suc o + k = omega arith in
    drop-drop o k ids ∙ ap (λ n. drop n (x ∷ ids)) e

up_to_limit_none : (ids : List ℕ) → up_to_limit (pos 0) ids ≡ ids
unfolding up_to_limit
up_to_limit_none ids = refl

-- A page and what the next offset leaves are what the page's offset leaves.
page-append :
    (o k : ℕ) (ids : List ℕ)
    → page (pos o) (pos (suc k)) ids ++ page (pos (o + suc k)) (pos 0) ids
      ≡ page (pos o) (pos 0) ids
page-append o k ids = ground (
  arith,
  up_to_limit-take k (from_offset (pos o) ids),
  up_to_limit_none (from_offset (pos o) ids),
  up_to_limit_none (from_offset (pos (o + suc k)) ids),
  from_offset-drop o ids,
  from_offset-drop (o + suc k) ids,
  drop-drop o (suc k) ids,
  take-append-drop (suc k) (drop o ids),
)

-- What a limit cuts off.
abbrev cut_off : ℤ → List ℕ → List ℕ
cut_off (pos (suc n)) ids = drop (suc n) ids
cut_off limit ids = []

-- Sorted lists with the same ids, each as often, are the same.
All-occurrences : (m x : ℕ) (ids : List ℕ) → All (λ y. m ≤ y) ids → 1 ≤ occurrences x ids → m ≤ x
All-occurrences m x [] below h = absurd (omega (arith, h))
All-occurrences m x (y ∷ ids) (here, below) h = elim (Bool-cases (y == x)) [
  | inl e ↦ ground (arith, here, e)
  | inr e ↦ All-occurrences m x ids below (ground (arith, h, e))
]

IsSorted-unique :
    (xs ys : List ℕ)
    → IsSorted xs
    → IsSorted ys
    → ((z : ℕ) → occurrences z xs ≡ occurrences z ys)
    → xs ≡ ys
IsSorted-unique [] [] s t same = refl
IsSorted-unique [] (y ∷ ys) s t same = absurd (ground (arith, same y))
IsSorted-unique (x ∷ xs) [] s t same = absurd (ground (arith, same x))
IsSorted-unique (x ∷ xs) (y ∷ ys) (below, s) (below', t) same =
    ground (arith, heads, IsSorted-unique xs ys s t (λ z. ground (arith, heads, same z)))
  where
    first : x ≤ y
    first = All-occurrences x y (x ∷ xs) (omega arith, below) (ground (arith, same y))

    second : y ≤ x
    second = All-occurrences y x (y ∷ ys) (omega arith, below') (ground (arith, same x))

    heads : x ≡ y
    heads = omega (arith, first, second)

sort-same : (a b : List ℕ) → ((z : ℕ) → occurrences z a ≡ occurrences z b) → sort a ≡ sort b
sort-same a b same =
    IsSorted-unique (sort a) (sort b) (IsSorted-sort a) (IsSorted-sort b)
      (λ z. count-sort z a ∙ same z ∙ sym (count-sort z b))

apply_sorting-same :
    (s : QuerySort) (ss : List QuerySort) (a b : List ℕ)
    → ((z : ℕ) → occurrences z a ≡ occurrences z b)
    → apply_sorting (s ∷ ss) a ≡ apply_sorting (s ∷ ss) b
unfolding apply_sorting
apply_sorting-same s ss a b same =
    ap (λ xs. if is_ascending (s ∷ ss) then xs else reverse xs) (sort-same a b same)

-- The query with another page.
abbrev pub with_page : ℤ → ℤ → Query → Query
with_page offset limit q = record q { offset = offset; limit = limit }

-- The ids in the order that the query asks for: as they were found without a sort, and else in the
-- order of the direction, ascending or descending.
pub record IsArranged (sorts : List QuerySort) (ids : List ℕ) (all : List ℕ) : Type 0 where
  pub same : (x : ℕ) → occurrences x all ≡ occurrences x ids
  pub unsorted : sorts ≡ [] → all ≡ ids
  pub ascending :
      (s : QuerySort) (ss : List QuerySort)
      → sorts ≡ s ∷ ss
      → is_ascending (s ∷ ss) ≡ true
      → IsSorted all
  pub descending :
      (s : QuerySort) (ss : List QuerySort)
      → sorts ≡ s ∷ ss
      → is_ascending (s ∷ ss) ≡ false
      → IsSorted (reverse all)

module _ (src : Sources) (lib : Conversions) (q : Query) (c : QueryCondition) (ids : List ℕ)
    (root : q.root_condition ≡ some c) (found : evaluate src lib [] c ≡ ok ids) where
  execute-page :
      execute src lib q
      ≡ ok (record {
        ids = page q.offset q.limit (apply_sorting q.sort_by ids);
        total_count = length ids;
      })
  unfolding execute
  execute-page = ground (arith, root, found)

-- Three calls of Execute for a query with a sort, each on answers of its own: where the condition
-- finds the same ids, each as often, in whatever order, the page at an offset with a positive limit
-- and the ids from the next page on are together, in order, the ids from that offset on without a
-- limit. Each call's condition is evaluated without an error.
pub execute-pages :
    (first_src other_src all_src : Sources) (lib : Conversions) (q : Query) (c : QueryCondition)
    (s : QuerySort) (ss : List QuerySort) (first_ids other_ids all_ids : List ℕ)
    → q.root_condition ≡ some c
    → q.sort_by ≡ s ∷ ss
    → evaluate first_src lib [] c ≡ ok first_ids
    → evaluate other_src lib [] c ≡ ok other_ids
    → evaluate all_src lib [] c ≡ ok all_ids
    → ((x : ℕ) → occurrences x first_ids ≡ occurrences x all_ids)
    → ((x : ℕ) → occurrences x other_ids ≡ occurrences x all_ids)
    → (o k : ℕ)
    → (first others all : QueryResult) × (execute first_src lib (with_page (pos o) (pos (suc k)) q)
        ≡ ok first)
      × (execute other_src lib (with_page (pos (o + suc k)) (pos 0) q) ≡ ok others)
      × (execute all_src lib (with_page (pos o) (pos 0) q) ≡ ok all)
      × (first.ids ++ others.ids ≡ all.ids)
execute-pages first_src other_src all_src lib q c s ss first_ids other_ids all_ids root sorts
      found_first found_other found_all same_first same_other o k =
    (
      result (pos o) (pos (suc k)) first_ids,
      result (pos (o + suc k)) (pos 0) other_ids,
      result (pos o) (pos 0) all_ids,
      execute-page first_src lib (with_page (pos o) (pos (suc k)) q) c first_ids root found_first,
      execute-page other_src lib (with_page (pos (o + suc k)) (pos 0) q) c other_ids root
          found_other,
      execute-page all_src lib (with_page (pos o) (pos 0) q) c all_ids root found_all,
      ap
            (λ xs.
              page (pos o) (pos (suc k)) xs ++ page (pos (o + suc k)) (pos 0) (arranged other_ids))
            (alike first_ids same_first)
          ∙ ap
              (λ xs.
                page (pos o) (pos (suc k)) (arranged all_ids) ++ page (pos (o + suc k)) (pos 0) xs)
              (alike other_ids same_other)
          ∙ page-append o k (arranged all_ids),
    )
  where
    arranged : List ℕ → List ℕ
    arranged ids = apply_sorting q.sort_by ids

    result : ℤ → ℤ → List ℕ → QueryResult
    result offset limit ids = record {
      ids = page offset limit (arranged ids);
      total_count = length ids;
    }

    alike :
        (ids : List ℕ)
        → ((x : ℕ) → occurrences x ids ≡ occurrences x all_ids)
        → arranged ids ≡ arranged all_ids
    alike ids same = rw sorts (apply_sorting-same s ss ids all_ids same)
