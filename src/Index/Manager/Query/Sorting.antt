-- ===== src/Index/Manager/Query/Sorting.antt =====
-- The sort of FindByRange: its result is sorted and has the same ids.
use fragmenta.Base.{ℕ, ◌≤◌, ◌≡◌, refl, arith, List, [], ◌∷◌}
use fragmenta.Base.{leb, true, occurrences}
use fragmenta.Base.{All, Bool-cases, inl, inr}
use fragmenta.Base.Map.{nat_eq}
use fragmenta.Index.Manager.Query.{is_sorted, insert_sorted, sort}
use fragmenta.Index.Manager.Query.{arranged}

abbrev pub IsSorted : List ℕ → Type 0
IsSorted [] = Unit
IsSorted (x ∷ xs) = All (λ y. x ≤ y) xs × IsSorted xs

pub All-map : {P Q : ℕ → Type 0} (xs : List ℕ) → ((x : ℕ) → P x → Q x) → All P xs → All Q xs
All-map [] f ps = tt
All-map (x ∷ xs) f (p, ps) = (f x p, All-map xs f ps)

count-insert_sorted :
    (x y : ℕ) (ys : List ℕ) → occurrences x (insert_sorted y ys) ≡ occurrences x (y ∷ ys)
unfolding insert_sorted
count-insert_sorted x y [] = refl
count-insert_sorted x y (z ∷ ys) = ground (arith, count-insert_sorted x y ys)

pub count-sort : (x : ℕ) (xs : List ℕ) → occurrences x (sort xs) ≡ occurrences x xs
unfolding sort
count-sort x [] = refl
count-sort x (y ∷ ys) = ground (arith, count-insert_sorted x y (sort ys), count-sort x ys)

All-insert_sorted :
    (P : ℕ → Type 0) (y : ℕ) (ys : List ℕ) → P y → All P ys → All P (insert_sorted y ys)
unfolding insert_sorted
All-insert_sorted P y [] p ps = (p, tt)
All-insert_sorted P y (z ∷ ys) p (q, ps) = elim (Bool-cases (leb y z)) [
  | inl e ↦ rw e (p, (q, ps))
  | inr e ↦ rw e (q, All-insert_sorted P y ys p ps)
]

IsSorted-insert_sorted : (y : ℕ) (ys : List ℕ) → IsSorted ys → IsSorted (insert_sorted y ys)
unfolding insert_sorted
IsSorted-insert_sorted y [] s = (tt, tt)
IsSorted-insert_sorted y (z ∷ ys) (below, s) = elim (Bool-cases (leb y z)) [
  | inl e ↦ rw e ((le e, All-map ys (λ v h. omega (arith, le e, h)) below), (below, s))
  | inr e ↦
      rw e (All-insert_sorted (λ v. z ≤ v) y ys (ground arith) below, IsSorted-insert_sorted y ys s)
]
  where
    le : leb y z ≡ true → y ≤ z
    le e = ground arith

pub IsSorted-sort : (xs : List ℕ) → IsSorted (sort xs)
unfolding sort
IsSorted-sort [] = tt
IsSorted-sort (x ∷ xs) = IsSorted-insert_sorted x (sort xs) (IsSorted-sort xs)

is_sorted-IsSorted : (xs : List ℕ) → is_sorted xs ≡ true → IsSorted xs
unfolding is_sorted
is_sorted-IsSorted [] h = tt
is_sorted-IsSorted (x ∷ []) h = (tt, tt)
is_sorted-IsSorted (x ∷ y ∷ ys) h =
    let s = is_sorted-IsSorted (y ∷ ys) (ground arith) in
    ((le, All-map ys (λ v h'. omega (arith, le, h')) s.0), s)
  where
    le : x ≤ y
    le = ground arith

pub arranged-IsSorted : (ids : List ℕ) → IsSorted (arranged ids)
arranged-IsSorted ids = elim (Bool-cases (is_sorted ids)) [
  | inl e ↦ rw e (is_sorted-IsSorted ids e)
  | inr e ↦ rw e (IsSorted-sort ids)
]

pub count-arranged : (x : ℕ) (ids : List ℕ) → occurrences x (arranged ids) ≡ occurrences x ids
count-arranged x ids = ground (arith, count-sort x ids)
