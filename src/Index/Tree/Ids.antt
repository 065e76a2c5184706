-- ===== src/Index/Tree/Ids.antt =====
-- How often an id stands in a tree, when ids are added and taken out by their decimals.
use fragmenta.Base.{ℕ, zero, suc, ◌+◌, ◌/◌, ◌%◌, ◌≡◌, refl, arith, List, [], ◌∷◌}
use fragmenta.Base.{◌==◌, ltb, leb, Bool, true, false, ◌&&◌, has_prefix}
use fragmenta.Base.{Bool-cases, inl, inr}
use fragmenta.Base.Map.{nat_eq}
use fragmenta.Index.Tree.{
  Node, empty_root, add_to_prefix_tree, take_out, collect, walk, find_child, digits, decimal,
}
use fragmenta.Index.Tree.Counts.{fits, once, count_at, count_at-place, measure}
use fragmenta.Index.Tree.Removal.{count_at-take_out}

digits_shape :
    (fuel n : ℕ) (rest : List ℕ) → (c : ℕ) × (cs : List ℕ) × (digits (suc fuel) n rest ≡ c ∷ cs)
unfolding digits
digits_shape zero n rest = elim (Bool-cases (ltb n 10)) [
  | inl e ↦ (48 + n, rest, rw e refl)
  | inr e ↦ (48 + n % 10, rest, rw e refl)
]
digits_shape (suc fuel) n rest = elim (Bool-cases (ltb n 10)) [
  | inl e ↦ (48 + n, rest, ground (arith, e))
  | inr e ↦
      let (c, cs, shape) = digits_shape fuel (n / 10) ((48 + n % 10) ∷ rest) in
      (c, cs, ground (arith, e, shape))
]

-- Adding and taking out an id whose decimal has a digit, as it always has.
pub count_at-add :
    (exact : Bool) (x : ℕ) (p : List ℕ) (id : ℕ) (n : Node)
    → count_at exact x p (add_to_prefix_tree (decimal id) id n)
      ≡ count_at exact x p n + once (fits exact p (decimal id) && id == x)
unfolding decimal
count_at-add exact x p id n =
    let (c, cs, shape) = digits_shape id id [] in
    rw shape (unfold add_to_prefix_tree in count_at-place exact x p (c ∷ cs) id n)

pub count_at-remove :
    (exact : Bool) (x : ℕ) (p : List ℕ) (id : ℕ) (n : Node)
    → count_at exact x p (take_out (decimal id) id n)
        + once (fits exact p (decimal id) && (id == x && leb 1 (count_at true id (decimal id) n)))
      ≡ count_at exact x p n
unfolding decimal
count_at-remove exact x p id n =
    let (c, cs, shape) = digits_shape id id [] in rw shape (count_at-take_out exact x p c cs id n)

pub fits_self : (p : List ℕ) → fits true p p ≡ true
unfolding fits
fits_self [] = refl
fits_self (c ∷ p) = ground (arith, fits_self p)

pub fits-has_prefix : (p s : List ℕ) → fits false p s ≡ has_prefix p s
unfolding fits has_prefix
fits-has_prefix [] [] = refl
fits-has_prefix [] (c ∷ s) = refl
fits-has_prefix (q ∷ p) [] = refl
fits-has_prefix (q ∷ p) (c ∷ s) = ground (arith, fits-has_prefix p s)

pub count_at-empty_root : (exact : Bool) (x : ℕ) (p : List ℕ) → count_at exact x p empty_root ≡ 0
unfolding walk measure
count_at-empty_root true x [] = refl
count_at-empty_root false x [] = unfold collect in refl
count_at-empty_root exact x (c ∷ p) = unfold find_child in refl
