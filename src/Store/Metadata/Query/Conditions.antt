-- ===== src/Store/Metadata/Query/Conditions.antt =====
-- What the operators of a condition mean.
use fragmenta.Base.{ℕ, zero, suc, ◌+◌, ◌-◌, ◌<◌, ◌≡◌, ◌↔◌, ap, arith, inl, inr}
use fragmenta.Base.{List, [], ◌∷◌, ◌++◌, length, drop, true, Bool-cases, length-append}
use fragmenta.Base.{has_prefix, has_prefix-append, has_prefix_inv}
use fragmenta.Store.Metadata.Query.{
  Condition, match_condition, some_position, contains_part, compare,
}
use fragmenta.Store.Metadata.Query.{contains}

-- The part occurs somewhere in the value.
abbrev pub IsPart : List ℕ → List ℕ → Type 0
IsPart part value = (before after : List ℕ) × (value ≡ before ++ (part ++ after))

IsPart-drop : (part value : List ℕ) → IsPart part (drop 1 value) → IsPart part value
IsPart-drop part [] (before, after, e) = (before, after, e)
IsPart-drop part (b ∷ value) (before, after, e) = (b ∷ before, after, ap (λ v. b ∷ v) e)

some_position-IsPart :
    (n : ℕ) (value part : List ℕ) → some_position n value part ≡ true → IsPart part value
unfolding some_position
some_position-IsPart zero value part h = cc
some_position-IsPart (suc n) value part h = elim (Bool-cases (has_prefix part value)) [
  | inl e ↦ let (after, q) = has_prefix_inv part value e in ([], after, q)
  | inr e ↦ IsPart-drop part value (some_position-IsPart n (drop 1 value) part (ground arith))
]

some_position-append :
    (n : ℕ) (before part after : List ℕ)
    → length before < n
    → some_position n (before ++ (part ++ after)) part ≡ true
unfolding some_position
some_position-append zero before part after h = absurd (omega arith)
some_position-append (suc n) [] part after h = ground (arith, has_prefix-append part after)
some_position-append (suc n) (b ∷ before) part after h =
    ground (arith, some_position-append n before part after)

contains_part-IsPart : (value part : List ℕ) → contains_part value part ≡ true → IsPart part value
unfolding contains_part
contains_part-IsPart value part h =
    some_position-IsPart (length value - length part + 1) value part (ground arith)

IsPart-contains_part : (value part : List ℕ) → IsPart part value → contains_part value part ≡ true
unfolding contains_part
IsPart-contains_part value part (before, after, e) = rw e (
    ground (
      arith,
      length-append before (part ++ after),
      length-append part after,
      some_position-append (length (before ++ (part ++ after)) - length part + 1) before part after,
    ))

-- A condition with OpContains holds of an entry exactly if the tags are the same and the
-- condition's value occurs somewhere in the entry's.
pub match_condition-contains_iff :
    (tag : ℕ) (value : List ℕ) (condition : Condition)
    → condition.operator ≡ contains
    → (match_condition tag value condition ≡ true)
      ↔ ((tag ≡ condition.tag) × IsPart condition.value value)
unfolding match_condition compare
match_condition-contains_iff tag value condition h = ground (
  arith,
  h,
  contains_part-IsPart value condition.value,
  IsPart-contains_part value condition.value,
)
