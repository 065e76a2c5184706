-- ===== src/Index/Tree/Counts.antt =====
-- How often an id stands below a prefix, before and after it is added.
use fragmenta.Base.{ℕ, ◌+◌, ◌≡◌, refl, sym, ap, ◌∙◌, arith, List, [], ◌∷◌, ◌++◌, Option, none, some}
use fragmenta.Base.{occurrences, occurrences-append, ◌==◌, if◌then◌else◌, Bool, true, false, ◌&&◌}
use fragmenta.Base.{not}
use fragmenta.Base.Int.{ℤ}
use fragmenta.Base.{Option-cases, Bool-cases, inl, inr}
use fragmenta.Index.Tree.{
  Node, node, Children, leaf, child, find_child, put_child, collect, collect_children,
}
use fragmenta.Index.Tree.{entered, place, walk, increment}

-- How often `x` stands at a node itself, or at it and below.
unfoldable pub measure : Bool → ℕ → Node → ℕ
unfolding collect
measure true x (node p k children ids) = occurrences x ids
measure false x n = occurrences x (collect n)

abbrev pub below : ℕ → Option Node → ℕ
below x none = 0
below x (some n) = occurrences x (collect n)

abbrev pub measure_opt : Bool → ℕ → Option Node → ℕ
measure_opt exact x none = 0
measure_opt exact x (some n) = measure exact x n

-- How often `x` stands at the path `p`, or at it and below.
abbrev pub count_at : Bool → ℕ → List ℕ → Node → ℕ
count_at exact x p n = measure_opt exact x (walk p n)

-- The path is the whole of another, or starts it.
unfoldable pub fits : Bool → List ℕ → List ℕ → Bool
fits exact [] [] = true
fits exact [] (c ∷ cs) = not exact
fits exact (q ∷ qs) [] = false
fits exact (q ∷ qs) (c ∷ cs) = q == c && fits exact qs cs

abbrev pub once : Bool → ℕ
once b = if b then 1 else 0

pub find_child-put_child :
    (c d : ℕ) (m : Node) (children : Children)
    → find_child d (put_child c m children) ≡ (if c == d then some m else find_child d children)
unfolding find_child put_child
find_child-put_child c d m leaf = refl
find_child-put_child c d m (child k n rest) = ground (arith, find_child-put_child c d m rest)

pub count-put_child :
    (x c : ℕ) (m : Node) (children : Children)
    → occurrences x (collect_children (put_child c m children)) + below x (find_child c children)
      ≡ occurrences x (collect_children children) + occurrences x (collect m)
unfolding find_child put_child collect
count-put_child x c m leaf = omega (arith, occurrences-append x (collect m) [])
count-put_child x c m (child k n rest) = elim (Bool-cases (k == c)) [
  | inl e ↦ rw e (
      omega (
        arith,
        occurrences-append x (collect m) (collect_children rest),
        occurrences-append x (collect n) (collect_children rest),
      ))
  | inr e ↦ rw e (
      omega (
        arith,
        count-put_child x c m rest,
        occurrences-append x (collect n) (collect_children (put_child c m rest)),
        occurrences-append x (collect n) (collect_children rest),
      ))
]

count-entered : (x c : ℕ) (o : Option Node) → occurrences x (collect (entered c o)) ≡ below x o
unfolding entered collect
count-entered x c none = refl
count-entered x c (some (node p k children ids)) = refl

count-place :
    (x : ℕ) (ds : List ℕ) (id : ℕ) (n : Node)
    → occurrences x (collect (place ds id n)) ≡ occurrences x (collect n) + once (id == x)
unfolding place collect
count-place x [] id (node p k children ids) = omega (
  arith,
  occurrences-append x (ids ++ (id ∷ [])) (collect_children children),
  occurrences-append x ids (id ∷ []),
  occurrences-append x ids (collect_children children),
)
count-place x (c ∷ cs) id (node p k children ids) =
    let next = entered c (find_child c children) in
    omega (
      arith,
      count-place x cs id next,
      count-put_child x c (place cs id next) children,
      count-entered x c (find_child c children),
      occurrences-append x ids (collect_children (put_child c (place cs id next) children)),
      occurrences-append x ids (collect_children children),
    )

-- The same for a child that may be missing.
abbrev pub count_opt : Bool → ℕ → List ℕ → Option Node → ℕ
count_opt exact x p none = 0
count_opt exact x p (some n) = count_at exact x p n

pub count_at-node :
    (exact : Bool) (x q : ℕ) (qs p : List ℕ) (k : ℤ) (children : Children) (ids : List ℕ)
    → count_at exact x (q ∷ qs) (node p k children ids)
      ≡ count_opt exact x qs (find_child q children)
unfolding walk
count_at-node exact x q qs p k children ids = elim (Option-cases (find_child q children)) [
  | inl e ↦ ground arith
  | inr (n, e) ↦ ground arith
]

-- A node's count does not matter.
pub count_at_any :
    (exact : Bool) (x : ℕ) (q p : List ℕ) (k k' : ℤ) (children : Children) (ids : List ℕ)
    → count_at exact x q (node p k children ids) ≡ count_at exact x q (node p k' children ids)
unfolding walk measure
count_at_any true x [] p k k' children ids = refl
count_at_any false x [] p k k' children ids = unfold collect in refl
count_at_any exact x (q ∷ qs) p k k' children ids =
    count_at-node exact x q qs p k children ids ∙ sym (count_at-node exact x q qs p k' children ids)

pub place_lem :
    (c : ℕ) (cs : List ℕ) (id : ℕ) (p : List ℕ) (k : ℤ) (children : Children) (ids : List ℕ)
    → place (c ∷ cs) id (node p k children ids)
      ≡ node p k (put_child c (place cs id (entered c (find_child c children))) children) ids
unfolding place
place_lem c cs id p k children ids = refl

measure-entered : (exact : Bool) (x c : ℕ) → measure exact x (entered c none) ≡ 0
unfolding measure entered collect
measure-entered true x c = refl
measure-entered false x c = refl

module _ (exact : Bool) (x : ℕ) where
  pub count_at-entered :
      (c : ℕ) (p : List ℕ) (o : Option Node)
      → count_at exact x p (entered c o) ≡ count_opt exact x p o
  unfolding entered
  count_at-entered c p (some (node p' k children ids)) =
      count_at_any exact x p p' (increment k) k children ids
  count_at-entered c [] none = unfold walk in measure-entered exact x c
  count_at-entered c (q ∷ qs) none = unfold walk find_child in refl

  -- At a node's child, after another child was put in its place.
  pub count_opt-put_child :
      (q c : ℕ) (qs : List ℕ) (m : Node) (children : Children)
      → count_opt exact x qs (find_child q (put_child c m children))
        ≡ (if c == q then count_at exact x qs m else count_opt exact x qs (find_child q children))
  count_opt-put_child q c qs m children =
      ap (count_opt exact x qs) (find_child-put_child c q m children)
      ∙ elim (Bool-cases (c == q)) [ inl e ↦ rw e refl | inr e ↦ rw e refl ]

measure-place :
    (exact : Bool) (x : ℕ) (ds : List ℕ) (id : ℕ) (n : Node)
    → measure exact x (place ds id n) ≡ measure exact x n + once (fits exact [] ds && id == x)
unfolding measure fits
measure-place false x [] id n = count-place x [] id n
measure-place false x (c ∷ cs) id n = count-place x (c ∷ cs) id n
measure-place true x [] id (node p k children ids) =
    unfold place in omega (arith, occurrences-append x ids (id ∷ []))
measure-place true x (c ∷ cs) id (node p k children ids) = unfold place in omega arith

-- An id that is added is counted where its path fits, and nothing else changes.
pub count_at-place :
    (exact : Bool) (x : ℕ) (p ds : List ℕ) (id : ℕ) (n : Node)
    → count_at exact x p (place ds id n) ≡ count_at exact x p n + once (fits exact p ds && id == x)
unfolding walk fits
count_at-place exact x [] ds id n = unfold fits in measure-place exact x ds id n
count_at-place exact x (q ∷ qs) [] id (node p k children ids) = unfold place in omega arith
count_at-place exact x (q ∷ qs) (c ∷ cs) id (node p k children ids) =
    let next = entered c (find_child c children) in
    let placed = place cs id next in
    ap (count_at exact x (q ∷ qs)) (place_lem c cs id p k children ids)
    ∙ count_at-node exact x q qs p k (put_child c placed children) ids
    ∙ count_opt-put_child exact x q c qs placed children
    ∙ below_child (count_at-place exact x qs cs id next)
    ∙ ap (λ m. m + once ((q == c && fits exact qs cs) && id == x))
        (sym (count_at-node exact x q qs p k children ids))
  where
    below_child :
        count_at exact x qs (place cs id (entered c (find_child c children)))
          ≡ count_at exact x qs (entered c (find_child c children))
            + once (fits exact qs cs && id == x)
        → (if c == q
            then count_at exact x qs (place cs id (entered c (find_child c children)))
            else count_opt exact x qs (find_child q children))
          ≡ count_opt exact x qs (find_child q children)
            + once ((q == c && fits exact qs cs) && id == x)
    below_child h = elim (Bool-cases (c == q)) [
      | inl e ↦ rw e (ground (arith, h, count_at-entered exact x c qs (find_child c children)))
      | inr e ↦ rw e (ground arith)
    ]
