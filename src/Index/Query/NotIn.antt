-- ===== src/Index/Query/NotIn.antt =====
-- What `nin` finds on tags.
use fragmenta.Base.{ℕ, ◌≡◌, refl, arith, List, [], ◌∷◌, true, not, ◌&&◌, ◌==◌}
use fragmenta.Base.{ok, ◌>>=◌, bind_inv}
use fragmenta.Index.Query.{Dynamic, many, op_not_in, type_tag, Conversions, condition, Children}
use fragmenta.Index.Query.Evaluate.{
  Sources, keep_out, difference, intersect, each_tag, combine_all, evaluate, evaluate_at,
  evaluate_leaf, evaluate_tag, evaluate_tag_in,
}
use fragmenta.Index.Query.Combine.{member, all_listed, combine_all-all}

module _ (x : ℕ) where
  member-keep_out : (b a : List ℕ) → member x (keep_out b a) ≡ (member x a && not (member x b))
  unfolding keep_out
  member-keep_out b [] = refl
  member-keep_out b (y ∷ a) = ground (arith, member-keep_out b a, same)
    where
      same : (y == x) ≡ true → member y b ≡ member x b
      same e = ground arith

  member-difference : (a b : List ℕ) → member x (difference a b) ≡ (member x a && not (member x b))
  unfolding difference
  member-difference [] b = refl
  member-difference (y ∷ a) [] = ground arith
  member-difference (y ∷ a) (z ∷ b) = member-keep_out (z ∷ b) (y ∷ a)

-- Where `nin` on a field of tags succeeds, for one or more tags, it finds the ids of the provider that
-- do not stand under all of the tags: an id that stands under some of them, but not all, is found.
pub evaluate-not_in :
    (src : Sources) (lib : Conversions) (place : List ℕ) (field : List ℕ) (d : Dynamic)
    (ds : List Dynamic) (cs : Children) (all ids : List ℕ)
    → src.get_all_ids place ≡ ok all
    → evaluate src lib place (
        condition
          (record {
            field = field;
            field_type = type_tag;
            operator = op_not_in;
            value = many (d ∷ ds);
          })
          cs)
      ≡ ok ids
    → (x : ℕ) → member x ids ≡ (member x all && not (all_listed x (each_tag src (d ∷ ds))))
unfolding evaluate evaluate_at evaluate_leaf evaluate_tag evaluate_tag_in
evaluate-not_in src lib place field d ds cs all ids known h x =
    let (r, e, h') =
      bind_inv (combine_all intersect (each_tag src (d ∷ ds)))
        (λ r. src.get_all_ids place >>= λ ids'. ok (difference ids' r)) h in
    ground
      (arith, known, h', member-difference x all r, combine_all-all x (each_tag src (d ∷ ds)) r e)
