-- ===== src/Index/Query/Combine.antt =====
-- The ids of several results joined, as the loops of evaluateCondition and evaluateTagInCondition join
-- them.
use fragmenta.Base.{ℕ, ◌≡◌, refl, ◌∙◌, arith, List, [], ◌∷◌, ◌++◌, ◌==◌}
use fragmenta.Base.{Bool, true, false, ◌&&◌, ◌||◌, any, Bool-cases, inl, inr, Result, ok, err}
use fragmenta.Index.Manager.Query.{keep_in}
use fragmenta.Index.Query.{QueryError}
use fragmenta.Index.Query.Evaluate.{unseen, union, intersect}
use fragmenta.Index.Query.Evaluate.{combine_rest, combine_all}

abbrev pub member : ℕ → List ℕ → Bool
member x ids = any (λ y. y == x) ids

abbrev pub listed : Result QueryError (List ℕ) → List ℕ
listed (ok ids) = ids
listed (err e) = []

module _ (x : ℕ) where
  member-append : (xs ys : List ℕ) → member x (xs ++ ys) ≡ (member x xs || member x ys)
  member-append [] ys = refl
  member-append (y ∷ xs) ys = ground (arith, member-append xs ys)

  member-keep_in : (b a : List ℕ) → member x (keep_in b a) ≡ (member x a && member x b)
  unfolding keep_in
  member-keep_in b [] = refl
  member-keep_in b (y ∷ a) = ground (arith, member-keep_in b a, same)
    where
      same : (y == x) ≡ true → member y b ≡ member x b
      same e = ground arith

  pub member-intersect : (a b : List ℕ) → member x (intersect a b) ≡ (member x a && member x b)
  unfolding intersect
  member-intersect [] b = refl
  member-intersect (y ∷ a) [] = ground arith
  member-intersect (y ∷ a) (z ∷ b) = member-keep_in (z ∷ b) (y ∷ a)

  member-unseen :
      (seen xs : List ℕ)
      → (member x seen || member x (unseen seen xs)) ≡ (member x seen || member x xs)
  unfolding unseen
  member-unseen seen [] = refl
  member-unseen seen (y ∷ xs) = elim (Bool-cases (any (λ z. z == y) seen)) [
    | inl e ↦ rw e (ground (arith, e, member-unseen seen xs, same))
    | inr e ↦ rw e (ground (arith, member-unseen (y ∷ seen) xs))
  ]
    where
      same : (y == x) ≡ true → member y seen ≡ member x seen
      same e = ground arith

  pub member-union : (a b : List ℕ) → member x (union a b) ≡ (member x a || member x b)
  unfolding union
  member-union [] b = refl
  member-union (y ∷ a) [] = ground arith
  member-union (y ∷ a) (z ∷ b) =
      member-unseen [] ((y ∷ a) ++ (z ∷ b)) ∙ member-append (y ∷ a) (z ∷ b)

-- A list of results with what each is to hold: all succeed, with the ids that their tests hold of.
abbrev pub Finds : Result QueryError (List ℕ) → (ℕ → Bool) → Type 0
Finds r p = (ids : List ℕ) × (r ≡ ok ids) × ((x : ℕ) → member x ids ≡ p x)

pub data AllFind : List (Result QueryError (List ℕ)) → List (ℕ → Bool) → Type 0 where
  none_left : AllFind [] []
  one_more :
      {r : Result QueryError (List ℕ)} {p : ℕ → Bool} {rs : List (Result QueryError (List ℕ))}
      {ps : List (ℕ → Bool)}
      → Finds r p
      → AllFind rs ps
      → AllFind (r ∷ rs) (p ∷ ps)

abbrev pub every : List (ℕ → Bool) → ℕ → Bool
every [] x = true
every (p ∷ ps) x = p x && every ps x

abbrev pub some_of : List (ℕ → Bool) → ℕ → Bool
some_of [] x = false
some_of (p ∷ ps) x = p x || some_of ps x

combine_rest-intersect :
    {rs : List (Result QueryError (List ℕ))} {ps : List (ℕ → Bool)} (first : List ℕ)
    → AllFind rs ps
    → Finds (combine_rest intersect rs first) (λ x. member x first && every ps x)
unfolding combine_rest
combine_rest-intersect first none_left = (first, refl, λ x. ground arith)
combine_rest-intersect first (one_more {r} {p} {rs} {ps} (ids, e, h) rest) =
    let (all, e', h') = combine_rest-intersect (intersect first ids) rest in
    (all, rw e e', λ x. ground (arith, h x, h' x, member-intersect x first ids))

combine_rest-union :
    {rs : List (Result QueryError (List ℕ))} {ps : List (ℕ → Bool)} (first : List ℕ)
    → AllFind rs ps
    → Finds (combine_rest union rs first) (λ x. member x first || some_of ps x)
unfolding combine_rest
combine_rest-union first none_left = (first, refl, λ x. ground arith)
combine_rest-union first (one_more {r} {p} {rs} {ps} (ids, e, h) rest) =
    let (all, e', h') = combine_rest-union (union first ids) rest in
    (all, rw e e', λ x. ground (arith, h x, h' x, member-union x first ids))

module _ (r : Result QueryError (List ℕ)) (p : ℕ → Bool) (rs : List (Result QueryError (List ℕ)))
    (ps : List (ℕ → Bool)) where
  pub combine_all-every :
      Finds r p → AllFind rs ps → Finds (combine_all intersect (r ∷ rs)) (every (p ∷ ps))
  unfolding combine_all
  combine_all-every (first, e, h) rest =
      let (ids, e', h') = combine_rest-intersect first rest in
      (ids, rw e e', λ x. ground (arith, h x, h' x))

  pub combine_all-some_of :
      Finds r p → AllFind rs ps → Finds (combine_all union (r ∷ rs)) (some_of (p ∷ ps))
  unfolding combine_all
  combine_all-some_of (first, e, h) rest =
      let (ids, e', h') = combine_rest-union first rest in
      (ids, rw e e', λ x. ground (arith, h x, h' x))

-- Where the loop succeeds, for results that are only known to.
abbrev pub any_listed : ℕ → List (Result QueryError (List ℕ)) → Bool
any_listed x [] = false
any_listed x (r ∷ rs) = member x (listed r) || any_listed x rs

abbrev pub all_listed : ℕ → List (Result QueryError (List ℕ)) → Bool
all_listed x [] = true
all_listed x (r ∷ rs) = member x (listed r) && all_listed x rs

combine_rest-any :
    (x : ℕ) (rs : List (Result QueryError (List ℕ))) (first ids : List ℕ)
    → combine_rest union rs first ≡ ok ids
    → member x ids ≡ (member x first || any_listed x rs)
unfolding combine_rest
combine_rest-any x [] first ids h = ground arith
combine_rest-any x (err e ∷ rs) first ids h = cc
combine_rest-any x (ok more ∷ rs) first ids h =
    ground (arith, combine_rest-any x rs (union first more) ids h, member-union x first more)

combine_rest-all :
    (x : ℕ) (rs : List (Result QueryError (List ℕ))) (first ids : List ℕ)
    → combine_rest intersect rs first ≡ ok ids
    → member x ids ≡ (member x first && all_listed x rs)
unfolding combine_rest
combine_rest-all x [] first ids h = ground arith
combine_rest-all x (err e ∷ rs) first ids h = cc
combine_rest-all x (ok more ∷ rs) first ids h =
    ground
      (arith, combine_rest-all x rs (intersect first more) ids h, member-intersect x first more)

pub combine_all-any :
    (x : ℕ) (rs : List (Result QueryError (List ℕ))) (ids : List ℕ)
    → combine_all union rs ≡ ok ids
    → member x ids ≡ any_listed x rs
unfolding combine_all
combine_all-any x [] ids h = cc
combine_all-any x (err e ∷ rs) ids h = cc
combine_all-any x (ok first ∷ rs) ids h = combine_rest-any x rs first ids h

pub combine_all-all :
    (x : ℕ) (rs : List (Result QueryError (List ℕ))) (ids : List ℕ)
    → combine_all intersect rs ≡ ok ids
    → member x ids ≡ all_listed x rs
unfolding combine_all
combine_all-all x [] ids h = cc
combine_all-all x (err e ∷ rs) ids h = cc
combine_all-all x (ok first ∷ rs) ids h = combine_rest-all x rs first ids h
