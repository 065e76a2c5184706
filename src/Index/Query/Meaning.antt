-- ===== src/Index/Query/Meaning.antt =====
-- The ids that a condition finds are those that it means.
use fragmenta.Base.{ℕ, suc, ◌≡◌, ◌≢◌, refl, ap, arith, List, [], ◌∷◌, ◌==◌, if◌then◌else◌}
use fragmenta.Base.{Bool, true, false, ◌&&◌, Result, ok, err, ◌>>=◌, bind_inv}
use fragmenta.Index.Query.{
  Operand, one, many, OperatorType, op_and, op_or, op_not, op_equal, op_in, op_not_in, FieldType,
  type_tag, Conversions,
}
use fragmenta.Index.Query.{
  Criterion, QueryCondition, condition, Children, no_child, child, QueryError,
}
use fragmenta.Index.Query.Evaluate.{Sources, equal_tag, each_tag, evaluate_tag_in}
use fragmenta.Index.Query.Evaluate.{
  evaluate_tag, meets_if_found, filter_ids, evaluate_metadata, evaluate_leaf, evaluate,
  evaluate_each,
}
use fragmenta.Index.Query.Evaluate.{evaluate_at}
use fragmenta.Index.Query.Combine.{
  member, listed, Finds, AllFind, none_left, one_more, every, some_of, any_listed,
  combine_all-every, combine_all-some_of, combine_all-any,
}

abbrev pub is_true : Result QueryError Bool → Bool
is_true (ok b) = b
is_true (err e) = false

module _ (src : Sources) (lib : Conversions) where
  -- The id stands under the tag, under one of the tags, or its metadata meets the condition.
  abbrev pub tag_holds : OperatorType → Criterion → ℕ → Bool
  tag_holds op_equal c x = member x (listed (equal_tag c.field c.value >>= src.find_by_tag))
  tag_holds op_in c x = elim c.value [ one d ↦ false | many ds ↦ any_listed x (each_tag src ds) ]
  tag_holds op c x = false

  abbrev pub metadata_holds : List ℕ → Criterion → ℕ → Bool
  metadata_holds place c x =
      member x (listed (src.get_all_ids place))
      && is_true (meets_if_found src lib c (src.get_metadata_for_id x))

  abbrev pub leaf_holds : List ℕ → FieldType → Criterion → ℕ → Bool
  leaf_holds place type_tag c x = tag_holds c.operator c x
  leaf_holds place ft c x = metadata_holds place c x

  tag_in-holds :
      (place : List ℕ) (o : Operand) (ids : List ℕ) (x : ℕ)
      → evaluate_tag_in src place false o ≡ ok ids
      → member x ids ≡ elim o [ one d ↦ false | many ds ↦ any_listed x (each_tag src ds) ]
  unfolding evaluate_tag_in
  tag_in-holds place (one d) ids x h = cc
  tag_in-holds place (many []) ids x h = unfold each_tag in ground arith
  tag_in-holds place (many (d ∷ ds)) ids x h = combine_all-any x (each_tag src (d ∷ ds)) ids h

  evaluate_tag-holds :
      (place : List ℕ) (op : OperatorType) (c : Criterion) (ids : List ℕ) (x : ℕ)
      → op ≢ op_not_in
      → evaluate_tag src place op c ≡ ok ids
      → member x ids ≡ tag_holds op c x
  unfolding evaluate_tag
  evaluate_tag-holds place op_equal c ids x n h = ground arith
  evaluate_tag-holds place op_in c ids x n h = tag_in-holds place c.value ids x h
  evaluate_tag-holds place op_not_in c ids x n h = ground (arith, n)
  evaluate_tag-holds place op c ids x n h = cc

  filter_ids-holds :
      (c : Criterion) (all ids : List ℕ) (x : ℕ)
      → filter_ids src lib c all ≡ ok ids
      → member x ids
        ≡ (member x all && is_true (meets_if_found src lib c (src.get_metadata_for_id x)))
  unfolding filter_ids
  filter_ids-holds c [] ids x h = ground arith
  filter_ids-holds c (y ∷ all) ids x h =
      let (met, found, k) =
        bind_inv (meets_if_found src lib c (src.get_metadata_for_id y))
          (λ met. (filter_ids src lib c all >>= λ rest. ok (if met then y ∷ rest else rest))) h in
      let (rest, found_rest, k') =
        bind_inv (filter_ids src lib c all) (λ rest. ok (if met then y ∷ rest else rest)) k in
      ground (arith, found, k', filter_ids-holds c all rest x found_rest, same)
    where
      same :
          (y == x) ≡ true
          → meets_if_found src lib c (src.get_metadata_for_id y)
            ≡ meets_if_found src lib c (src.get_metadata_for_id x)
      same e = ap (λ i. meets_if_found src lib c (src.get_metadata_for_id i)) (id_eq e)
        where
          id_eq : (y == x) ≡ true → y ≡ x
          id_eq e' = ground arith

  evaluate_leaf-holds :
      (place : List ℕ) (ft : FieldType) (c : Criterion) (ids : List ℕ) (x : ℕ)
      → (ft ≡ type_tag → c.operator ≢ op_not_in)
      → evaluate_leaf src lib place ft c ≡ ok ids
      → member x ids ≡ leaf_holds place ft c x
  unfolding evaluate_leaf evaluate_metadata
  evaluate_leaf-holds place type_tag c ids x n h =
      evaluate_tag-holds place c.operator c ids x (n refl) h
  evaluate_leaf-holds place ft c ids x n h =
      let (all, e, h') = bind_inv (src.get_all_ids place) (filter_ids src lib c) h in
      ground (arith, e, filter_ids-holds c all ids x h')

  -- What a condition means: `&&`, `||` and the conditions on tags and metadata.
  abbrev pub means_at : List ℕ → OperatorType → Criterion → List (ℕ → Bool) → ℕ → Bool
  means_at place op_and c ps x = every ps x
  means_at place op_or c ps x = some_of ps x
  means_at place op c ps x = leaf_holds place c.field_type c x

  unfoldable mutual
    pub means : List ℕ → QueryCondition → ℕ → Bool
    means place (condition c cs) = means_at place c.operator c (means_each place 0 cs)

    pub means_each : List ℕ → ℕ → Children → List (ℕ → Bool)
    means_each place n no_child = []
    means_each place n (child c cs) = means (n ∷ place) c ∷ means_each place (suc n) cs

  abbrev pub HasChild : Children → Type 0
  HasChild no_child = ⊥
  HasChild (child c cs) = Unit

  -- `&&` and `||` with children, and conditions that can be evaluated, `nin` on tags left out.
  abbrev pub IsAnswerableAt : List ℕ → OperatorType → Criterion → Children → Type 0 → Type 0
  IsAnswerableAt place op_and c cs each = HasChild cs × each
  IsAnswerableAt place op_or c cs each = HasChild cs × each
  IsAnswerableAt place op_not c cs each = ⊥
  IsAnswerableAt place op c cs each =
      (c.field_type ≡ type_tag → op ≢ op_not_in)
      × ((ids : List ℕ) × (evaluate_leaf src lib place c.field_type c ≡ ok ids))

  unfoldable mutual
    pub IsAnswerable : List ℕ → QueryCondition → Type 0
    IsAnswerable place (condition c cs) =
        IsAnswerableAt place c.operator c cs (AreAnswerable place 0 cs)

    pub AreAnswerable : List ℕ → ℕ → Children → Type 0
    AreAnswerable place n no_child = Unit
    AreAnswerable place n (child c cs) = IsAnswerable (n ∷ place) c × AreAnswerable place (suc n) cs

  leaf-Finds :
      (place : List ℕ) (c : Criterion)
      → (c.field_type ≡ type_tag → c.operator ≢ op_not_in)
        × ((ids : List ℕ) × (evaluate_leaf src lib place c.field_type c ≡ ok ids))
      → Finds (evaluate_leaf src lib place c.field_type c) (leaf_holds place c.field_type c)
  leaf-Finds place c (n, (ids, found)) =
      (ids, found, λ x. evaluate_leaf-holds place c.field_type c ids x n found)

  at-Finds :
      (place : List ℕ) (op : OperatorType) (c : Criterion) (cs : Children)
      → c.operator ≡ op
      → IsAnswerableAt place op c cs
          (AllFind (evaluate_each src lib place 0 cs) (means_each place 0 cs))
      → Finds
          (evaluate_at src lib place op c cs (evaluate_each src lib place 0 cs))
          (means_at place op c (means_each place 0 cs))
  unfolding evaluate_at evaluate_each means_each
  at-Finds place op_and c (child d cs) e (some_child, one_more found rest) =
      combine_all-every (evaluate src lib (0 ∷ place) d) (means (0 ∷ place) d)
        (evaluate_each src lib place 1 cs) (means_each place 1 cs) found rest
  at-Finds place op_or c (child d cs) e (some_child, one_more found rest) =
      combine_all-some_of (evaluate src lib (0 ∷ place) d) (means (0 ∷ place) d)
        (evaluate_each src lib place 1 cs) (means_each place 1 cs) found rest
  at-Finds place op_and c no_child e (h, rest) = elim h [ ]
  at-Finds place op_or c no_child e (h, rest) = elim h [ ]
  at-Finds place op_not c cs e h = elim h [ ]
  at-Finds place op c cs e (n, found) = leaf-Finds place c (rw e n, found)

  answerable_map :
      (place : List ℕ) (op : OperatorType) (c : Criterion) (cs : Children) {P R : Type 0}
      (f : P → R)
      → IsAnswerableAt place op c cs P
      → IsAnswerableAt place op c cs R
  answerable_map place op_and c cs f (h, p) = (h, f p)
  answerable_map place op_or c cs f (h, p) = (h, f p)
  answerable_map place op_not c cs f h = h
  answerable_map place op c cs f h = h

  mutual
    unfolding evaluate evaluate_each means means_each IsAnswerable AreAnswerable

    evaluate-Finds :
        (place : List ℕ) (q : QueryCondition)
        → IsAnswerable place q
        → Finds (evaluate src lib place q) (means place q)
    evaluate-Finds place (condition c cs) h =
        at-Finds place c.operator c cs refl
          (answerable_map place c.operator c cs (each-Finds place 0 cs) h)

    each-Finds :
        (place : List ℕ) (n : ℕ) (cs : Children)
        → AreAnswerable place n cs
        → AllFind (evaluate_each src lib place n cs) (means_each place n cs)
    each-Finds place n no_child h = none_left
    each-Finds place n (child c cs) (h, hs) =
        one_more (evaluate-Finds (n ∷ place) c h) (each-Finds place (suc n) cs hs)

-- A condition of `&&` and `||` over conditions that can be evaluated, `nin` on tags left out, is
-- evaluated without an error, to exactly the ids that it means: those that stand under a tag, under
-- one of several tags, or whose metadata meets the comparison, as all or some of its parts require.
-- Each call of GetAllIDs may list the ids in an order of its own.
pub evaluate-means :
    (src : Sources) (lib : Conversions) (place : List ℕ) (q : QueryCondition)
    → IsAnswerable src lib place q
    → (ids : List ℕ) × (evaluate src lib place q ≡ ok ids)
      × ((x : ℕ) → member x ids ≡ means src lib place q x)
evaluate-means src lib place q h = evaluate-Finds src lib place q h
