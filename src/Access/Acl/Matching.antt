-- ===== src/Access/Acl/Matching.antt =====
-- What the patterns of resource names match.
use fragmenta.Base.{◌-◌, ◌≡◌, sym, ap, ◌∙◌, arith, ◌⊎◌, inl, inr, ◌↔◌, Bool-cases}
use fragmenta.Base.{◌++◌, length, take, true, codes, text_eq, text_eq_iff}
use fragmenta.Base.{
  has_prefix, has_suffix, has_suffix_inv, has_suffix-append, take-append, has_prefix-append,
  has_prefix_inv, length-append,
}
use fragmenta.Access.Acl.{Text, star, match_resource_id}
use mathlib.Core.List.{append_assoc}

-- The name `id` lies below the directory `dir`.
abbrev pub IsBelow : Text → Text → Type 0
IsBelow dir id = (rest : Text) × (id ≡ (dir ++ codes "/") ++ rest)

-- What a pattern is meant to match: itself, everything, what lies below "dir" for "dir/*", and what
-- lies below the pattern.
abbrev pub Matches : Text → Text → Type 0
Matches pattern id =
    (pattern ≡ id)
    ⊎ (pattern ≡ star)
    ⊎ ((dir : Text) × (pattern ≡ dir ++ codes "/*") × IsBelow dir id)
    ⊎ IsBelow pattern id

take_directory :
    (dir : Text) → take (length (dir ++ codes "/*") - 1) (dir ++ codes "/*") ≡ dir ++ codes "/"
take_directory dir =
    rw (← append_assoc dir (codes "/") (codes "*"), shorter)
      (take-append (dir ++ codes "/") (codes "*"))
  where
    shorter : length ((dir ++ codes "/") ++ codes "*") - 1 ≡ length (dir ++ codes "/")
    shorter = omega (arith, length-append (dir ++ codes "/") (codes "*"))

has_prefix-IsBelow : (dir id : Text) → IsBelow dir id → has_prefix (dir ++ codes "/") id ≡ true
has_prefix-IsBelow dir id (rest, e) = rw e (has_prefix-append (dir ++ codes "/") rest)

matches_directory :
    (dir id : Text) → IsBelow dir id → match_resource_id (dir ++ codes "/*") id ≡ true
unfolding match_resource_id
matches_directory dir id b = ground (
  arith,
  has_suffix-append dir (codes "/*"),
  ap (λ (p : Text). has_prefix p id) (take_directory dir),
  has_prefix-IsBelow dir id b,
)

-- Below "dir/*", taken as a plain name, is below "dir/".
IsBelow-pattern :
    (dir pattern id : Text) → pattern ≡ dir ++ codes "/*" → IsBelow pattern id → IsBelow dir id
IsBelow-pattern dir pattern id e (rest, below) = (
  codes "*/" ++ rest,
  below
      ∙ ap (λ (p : Text). (p ++ codes "/") ++ rest) e
      ∙ ap (λ (p : Text). p ++ rest) (append_assoc dir (codes "/*") (codes "/"))
      ∙ append_assoc dir (codes "/*/") rest
      ∙ sym (append_assoc dir (codes "/") (codes "*/" ++ rest)),
)

matches_below : (pattern id : Text) → IsBelow pattern id → match_resource_id pattern id ≡ true
matches_below pattern id b = elim (Bool-cases (has_suffix (codes "/*") pattern)) [
  | inl suffix ↦
      let (dir, e) = has_suffix_inv (codes "/*") pattern suffix in
      rw e (matches_directory dir id (IsBelow-pattern dir pattern id e b))
  | inr plain ↦ unfold match_resource_id in ground (arith, has_prefix-IsBelow pattern id b)
]

match_resource_id_sound :
    (pattern id : Text) → match_resource_id pattern id ≡ true → Matches pattern id
unfolding match_resource_id
match_resource_id_sound pattern id h = elim (Bool-cases (text_eq pattern id)) [
  | inl same ↦ inl ((text_eq_iff pattern id).0 same)
  | inr other ↦ elim (Bool-cases (text_eq pattern star)) [
    | inl all ↦ inr (inl ((text_eq_iff pattern star).0 all))
    | inr some_names ↦ elim (Bool-cases (has_suffix (codes "/*") pattern)) [
      | inl suffix ↦
          let (dir, e) = has_suffix_inv (codes "/*") pattern suffix in
          inr (
            inr (
              inl (
                dir,
                e,
                has_prefix_inv (dir ++ codes "/") id (
                    ground (
                      arith,
                      take_directory dir,
                      ap (λ (p : Text). has_prefix (take (length p - 1) p) id) e,
                      ap (λ (p : Text). has_prefix p id) (take_directory dir),
                    )),
              )))
      | inr plain ↦ inr (inr (inr (has_prefix_inv (pattern ++ codes "/") id (ground arith))))
    ]
  ]
]

match_resource_id_complete :
    (pattern id : Text) → Matches pattern id → match_resource_id pattern id ≡ true
match_resource_id_complete pattern id (inl same) =
    unfold match_resource_id in ground (arith, text_eq_iff pattern id)
match_resource_id_complete pattern id (inr (inl all)) =
    unfold match_resource_id in ground (arith, text_eq_iff pattern star)
match_resource_id_complete pattern id (inr (inr (inl (dir, e, b)))) =
    rw e (matches_directory dir id b)
match_resource_id_complete pattern id (inr (inr (inr b))) = matches_below pattern id b

-- matchResourceID says yes exactly when the pattern is the name or "*", or it is "dir/*" and the
-- name lies below dir, or the name lies below the pattern.
pub match_resource_id_iff :
    (pattern id : Text) → (match_resource_id pattern id ≡ true) ↔ Matches pattern id
match_resource_id_iff pattern id =
    (match_resource_id_sound pattern id, match_resource_id_complete pattern id)
