-- ===== src/Index/Tree/Removal.antt =====
-- How often an id stands below a prefix, after one was taken out.
use fragmenta.Base.{ℕ, zero, suc, ◌+◌, ◌≡◌, refl, ap, arith, List, [], ◌∷◌, none, some}
use fragmenta.Base.{occurrences, occurrences-append, ◌==◌, leb, Bool, true, false, ◌&&◌}
use fragmenta.Base.Int.{ℤ, pos, negsuc}
use fragmenta.Base.{Option-cases, inl, inr}
use fragmenta.Index.Tree.{
  Node, node, Children, leaf, child, find_child, put_child, delete_child, collect, collect_children,
}
use fragmenta.Index.Tree.{take_out, walk, decrement, tidy, left, remove_id}
use fragmenta.Index.Tree.Counts.{
  fits, once, count_at, count_at-node, count_opt, count_opt-put_child, count_at_any,
  count-put_child, measure, below,
}

tidy_lem : (c : ℕ) (n : Node) → tidy c n ≡ n
unfolding tidy
tidy_lem c (node p (pos zero) leaf []) = unfold delete_child in refl
tidy_lem c (node p (pos zero) leaf (x ∷ ids)) = refl
tidy_lem c (node p (pos zero) (child d n rest) ids) = refl
tidy_lem c (node p (pos (suc k)) children ids) = refl
tidy_lem c (node p (negsuc k) children ids) = refl

pub count-remove_id :
    (x id : ℕ) (ids : List ℕ)
    → occurrences x (remove_id id ids) + once (id == x && leb 1 (occurrences id ids))
      ≡ occurrences x ids
unfolding remove_id
count-remove_id x id [] = ground arith
count-remove_id x id (y ∷ ids) = ground (arith, count-remove_id x id ids)

-- What a node lost that was counted once less, where `id` stood at the end of the path `ds`.
abbrev Lowered : Bool → ℕ → List ℕ → List ℕ → ℕ → Node → Node → Type 0
Lowered exact x q ds id n n' =
    count_at exact x q n' + once (fits exact q ds && (id == x && leb 1 (count_at true id ds n)))
    ≡ count_at exact x q n

fits_below : (cs : List ℕ) → fits false [] cs ≡ true
unfolding fits
fits_below [] = refl
fits_below (c ∷ cs) = refl

module _ (x id : ℕ) where
  Lowered-remove_id :
      (exact : Bool) (q p : List ℕ) (k k' : ℤ) (children : Children) (ids : List ℕ)
      → Lowered exact x q [] id (node p k children ids) (node p k' children (remove_id id ids))
  unfolding fits walk measure
  Lowered-remove_id true [] p k k' children ids = count-remove_id x id ids
  Lowered-remove_id false [] p k k' children ids =
      unfold collect in
      omega (
        arith,
        count-remove_id x id ids,
        occurrences-append x (remove_id id ids) (collect_children children),
        occurrences-append x ids (collect_children children),
      )
  Lowered-remove_id exact (d ∷ q) p k k' children ids = omega (
    arith,
    count_at-node exact x d q p k children ids,
    count_at-node exact x d q p k' children (remove_id id ids),
  )

  -- The path goes through the child `n`, which `m` takes the place of.
  put_child-Lowered :
      (c : ℕ) (cs : List ℕ) (n m : Node)
      → ((exact : Bool) (q : List ℕ) → Lowered exact x q cs id n m)
      → (exact : Bool) (q p : List ℕ) (k : ℤ) (children : Children) (ids : List ℕ)
      → find_child c children ≡ some n
      → Lowered exact x q
          (c ∷ cs)
          id
          (node p k children ids)
          (node p k (put_child c m children) ids)
  unfolding fits walk measure
  put_child-Lowered c cs n m step true [] p k children ids e = omega arith
  put_child-Lowered c cs n m step false [] p k children ids e =
      unfold collect in
      ground (
        arith,
        step false [],
        fits_below cs,
        ap (below x) e,
        ap (count_opt true id cs) e,
        count_at-node true id c cs p k children ids,
        count-put_child x c m children,
        occurrences-append x ids (collect_children children),
        occurrences-append x ids (collect_children (put_child c m children)),
      )
  put_child-Lowered c cs n m step exact (d ∷ q) p k children ids e = ground (
    arith,
    step exact q,
    ap (count_opt exact x q) e,
    ap (count_opt true id cs) e,
    count_at-node exact x d q p k children ids,
    count_at-node exact x d q p k (put_child c m children) ids,
    count_at-node true id c cs p k children ids,
    count_opt-put_child exact x d c q m children,
  )

  take_out-none :
      (c : ℕ) (cs : List ℕ) (p : List ℕ) (k : ℤ) (children : Children) (ids : List ℕ)
      → find_child c children ≡ none
      → take_out (c ∷ cs) id (node p k children ids) ≡ node p k children ids
  unfolding take_out
  take_out-none c cs p k children ids e = rw (e, take_out) refl

  take_out-some :
      (c : ℕ) (cs : List ℕ) (p : List ℕ) (k : ℤ) (children : Children) (ids : List ℕ) (n : Node)
      → find_child c children ≡ some n
      → take_out (c ∷ cs) id (node p k children ids)
        ≡ node p k (put_child c (take_out cs id (left c cs id n)) children) ids
  unfolding take_out put_child
  take_out-some c cs p k children ids n e = rw (e, take_out) refl

  -- With nothing at the end of the path, nothing is lost.
  absent-Lowered :
      (exact : Bool) (q : List ℕ) (c : ℕ) (cs p : List ℕ) (k : ℤ) (children : Children)
      (ids : List ℕ)
      → find_child c children ≡ none
      → Lowered exact x q (c ∷ cs) id (node p k children ids) (node p k children ids)
  absent-Lowered exact q c cs p k children ids e =
      ground (arith, ap (count_opt true id cs) e, count_at-node true id c cs p k children ids)

  take_out-Lowered :
      (c : ℕ) (cs : List ℕ)
      → ((exact : Bool) (q : List ℕ) (n : Node)
          → Lowered exact x q cs id n (take_out cs id (left c cs id n)))
      → (exact : Bool) (q : List ℕ) (n : Node)
      → Lowered exact x q (c ∷ cs) id n (take_out (c ∷ cs) id n)
  take_out-Lowered c cs step exact q (node p k children ids) =
      elim (Option-cases (find_child c children)) [
        | inl e ↦
            rw (take_out-none c cs p k children ids e)
              (absent-Lowered exact q c cs p k children ids e)
        | inr (n, e) ↦ rw (take_out-some c cs p k children ids n e) (
            put_child-Lowered c cs n (take_out cs id (left c cs id n))
              (λ exact' q'. step exact' q' n) exact q p k children ids e)
      ]

  -- A round at the child stepped into, and the rounds after it.
  step-Lowered :
      (c : ℕ) (cs : List ℕ) (exact : Bool) (q : List ℕ) (n : Node)
      → Lowered exact x q cs id n (take_out cs id (left c cs id n))
  unfolding left
  step-Lowered c [] exact q (node p k children ids) =
      unfold take_out in
      rw (tidy_lem c (node p (decrement k) children (remove_id id ids)))
        (Lowered-remove_id exact q p k (decrement k) children ids)
  step-Lowered c (d ∷ ds) exact q (node p k children ids) =
      rw (tidy_lem c (node p (decrement k) children ids)) (
        ground (
          arith,
          take_out-Lowered d ds (step-Lowered d ds) exact q (node p (decrement k) children ids),
          count_at_any exact x q p k (decrement k) children ids,
          count_at_any true id (d ∷ ds) p k (decrement k) children ids,
        ))

-- An id that is taken out is counted once less where its path fits, if it stands at the path's end.
pub count_at-take_out :
    (exact : Bool) (x : ℕ) (q : List ℕ) (c : ℕ) (cs : List ℕ) (id : ℕ) (n : Node)
    → count_at exact x q (take_out (c ∷ cs) id n)
        + once (fits exact q (c ∷ cs) && (id == x && leb 1 (count_at true id (c ∷ cs) n)))
      ≡ count_at exact x q n
count_at-take_out exact x q c cs id n =
    take_out-Lowered x id c cs (step-Lowered x id c cs) exact q n
