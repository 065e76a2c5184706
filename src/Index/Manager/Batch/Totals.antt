-- ===== src/Index/Manager/Batch/Totals.antt =====
-- The number of ids in the lists, after each change of a tag's list, and the count beside it.
use fragmenta.Base.{
  ℕ, suc, ◌+◌, ◌-◌, ◌≤◌, ◌≡◌, refl, sym, ap, ◌∙◌, arith, List, [], ◌∷◌, ◌++◌, some,
}
use fragmenta.Base.{
  ◌==◌, if◌then◌else◌, true, any, length, length-append, Bool-cases, Option-cases, inl, inr,
}
use fragmenta.Base.Int.{ℤ, pos}
use fragmenta.Base.Map.{nat_eq, insert, delete, lookup}
use fragmenta.Base.Map.Keys.{IsKeyed, IsKeyed-insert, IsKeyed-delete}
use fragmenta.Index.Tree.{increment, decrement}
use fragmenta.Index.Manager.{Indices, ids_of, ids_without}
use fragmenta.Index.Manager.Batch.{keep_others, lower, store_rest}

-- All ids of all tags.
abbrev pub total : Indices → ℕ
total [] = 0
total ((tag, ids) ∷ m) = length ids + total m

ids_of-head :
    (tag k : ℕ) (v : List ℕ) (m : Indices)
    → length (ids_of tag ((k, v) ∷ m)) ≡ (if k == tag then length v else length (ids_of tag m))
unfolding lookup
ids_of-head tag k v m = elim (Bool-cases (k == tag)) [
  | inl e ↦ ground (arith, e)
  | inr e ↦ ground (arith, e)
]

total-insert :
    (tag : ℕ) (ids : List ℕ) (m : Indices)
    → total (insert tag ids m) + length (ids_of tag m) ≡ total m + length ids
unfolding insert lookup
total-insert tag ids [] = omega arith
total-insert tag ids ((k, v) ∷ m) = ground (arith, ids_of-head tag k v m, total-insert tag ids m)

total-delete :
    (tag : ℕ) (m : Indices) → IsKeyed m → total (delete tag m) + length (ids_of tag m) ≡ total m
unfolding delete lookup
total-delete tag [] u = omega arith
total-delete tag ((k, v) ∷ m) (absent, u) =
    ground (arith, ids_of-head tag k v m, total-delete tag m u, gone)
  where
    gone : (k == tag) ≡ true → length (ids_of tag m) ≡ 0
    gone e = ground (arith, e, absent)

-- The count is that of the lists.
abbrev pub Counted : ℤ → Indices → Type 0
Counted n m = (n ≡ pos (total m)) × IsKeyed m

module _ (n : ℤ) (m : Indices) where
  pub Counted-grow :
      (tag id : ℕ) → Counted n m → Counted (increment n) (insert tag (ids_of tag m ++ (id ∷ [])) m)
  Counted-grow tag id (is_counted, u) = (
    ap increment is_counted ∙ ap pos one_more,
    IsKeyed-insert tag (ids_of tag m ++ (id ∷ [])) m u,
  )
    where
      one_more : suc (total m) ≡ total (insert tag (ids_of tag m ++ (id ∷ [])) m)
      one_more = omega (
        arith,
        total-insert tag (ids_of tag m ++ (id ∷ [])) m,
        length-append (ids_of tag m) (id ∷ []),
      )

  pub Counted-same : (tag : ℕ) → Counted n m → Counted n (insert tag (ids_of tag m) m)
  Counted-same tag (is_counted, u) = (
    is_counted ∙ ap pos (omega (arith, total-insert tag (ids_of tag m) m)),
    IsKeyed-insert tag (ids_of tag m) m u,
  )

  length-ids_without :
      (id : ℕ) (ids ys : List ℕ) → ids_without id ids ≡ some ys → length ids ≡ suc (length ys)
  unfolding ids_without
  length-ids_without id [] ys e = cc
  length-ids_without id (x ∷ ids) ys e = elim (Option-cases (ids_without id ids)) [
    | inl e' ↦ ground (arith, e, e')
    | inr (zs, e') ↦ ground (arith, e, e', length-ids_without id ids zs e')
  ]

  pub Counted-shrink :
      (tag id : ℕ) (ys : List ℕ)
      → ids_without id (ids_of tag m) ≡ some ys
      → Counted n m
      → Counted (decrement n) (insert tag ys m)
  Counted-shrink tag id ys e (is_counted, u) =
      (ap decrement (is_counted ∙ ap pos one_less), IsKeyed-insert tag ys m u)
    where
      one_less : total m ≡ suc (total (insert tag ys m))
      one_less = omega (arith, total-insert tag ys m, length-ids_without id (ids_of tag m) ys e)

lower-keep_others :
    (gone ids : List ℕ) (r : ℕ)
    → lower gone ids (pos (length ids + r)) ≡ pos (length (keep_others gone ids) + r)
unfolding lower keep_others
lower-keep_others gone [] r = refl
lower-keep_others gone (x ∷ ids) r = elim (Bool-cases (any (λ y. y == x) gone)) [
  | inl e ↦ rw e (
      ap (λ k. lower gone ids (decrement (pos k))) (suc_plus (length ids))
      ∙ lower-keep_others gone ids r)
  | inr e ↦ rw e (
      ap (λ k. lower gone ids (pos k)) (plus_suc (length ids))
      ∙ lower-keep_others gone ids (suc r)
      ∙ ap pos (sym (plus_suc (length (keep_others gone ids)))))
]
  where
    suc_plus : (k : ℕ) → suc k + r ≡ suc (k + r)
    suc_plus k = omega arith

    plus_suc : (k : ℕ) → suc k + r ≡ k + suc r
    plus_suc k = omega arith

total-store_rest :
    (tag : ℕ) (ids : List ℕ) (m : Indices)
    → IsKeyed m
    → total (store_rest tag ids m) + length (ids_of tag m) ≡ total m + length ids
total-store_rest tag [] m u = omega (arith, total-delete tag m u)
total-store_rest tag (x ∷ xs) m u = total-insert tag (x ∷ xs) m

IsKeyed-store_rest :
    (tag : ℕ) (ids : List ℕ) (m : Indices) → IsKeyed m → IsKeyed (store_rest tag ids m)
IsKeyed-store_rest tag [] m u = IsKeyed-delete tag m u
IsKeyed-store_rest tag (x ∷ xs) m u = IsKeyed-insert tag (x ∷ xs) m u

pub Counted-store_rest :
    (n : ℤ) (m : Indices) (tag : ℕ) (gone ids : List ℕ)
    → ids_of tag m ≡ ids
    → Counted n m
    → Counted (lower gone ids n) (store_rest tag (keep_others gone ids) m)
Counted-store_rest n m tag gone ids e (is_counted, u) = (
  ap (lower gone ids) (is_counted ∙ ap pos (sym (split total_here)))
      ∙ lower-keep_others gone ids (total m - length ids)
      ∙ ap pos
          (omega (arith, total-store_rest tag (keep_others gone ids) m u, ap length e, total_here)),
  IsKeyed-store_rest tag (keep_others gone ids) m u,
)
  where
    total_here : length ids ≤ total m
    total_here = omega (arith, total-delete tag m u, ap length e)

    split : length ids ≤ total m → length ids + (total m - length ids) ≡ total m
    split le = omega arith
