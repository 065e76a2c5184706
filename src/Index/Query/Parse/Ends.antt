-- ===== src/Index/Query/Parse/Ends.antt =====
-- The parser of queries ends: the parts that it parses in turn are shorter than what it was given.
use fragmenta.Base.{
  ℕ, zero, suc, ◌+◌, ◌-◌, ◌≤◌, ◌<◌, ◌≡◌, refl, ◌⊎◌, Result-cases, ap, arith, List, [], ◌∷◌, Option,
  some, codes, inl, inr, Bool-cases, Option-cases, All, length, length-reverse,
}
use fragmenta.Base.{true, false, Result, has_prefix}
use mathlib.Core.List.{reverse}
use fragmenta.Index.Query.{
  QueryCondition, Children, Query, Conversions, OperatorType, op_and, op_or,
}
use fragmenta.Index.Query.Match.{contains_text}
use fragmenta.Index.Query.Parse.{
  Scanner, ParseFailure, white_space, backwards, width_of, trim_start, trim_space, split_from,
  split,
}
use fragmenta.Index.Query.Parse.Conditions.{
  parse_by_pattern, parse_each, parse_condition_string, parse_part, parse_parts, parse_query_string,
  join_children, add_child,
}

length-trim_start :
    (spaces : List (List ℕ)) (skipped : ℕ) (s : List ℕ)
    → length (trim_start spaces skipped s) ≤ length s
unfolding trim_start
length-trim_start spaces skipped [] = omega arith
length-trim_start spaces (suc skipped) (c ∷ s) = omega (arith, length-trim_start spaces skipped s)
length-trim_start spaces zero (c ∷ s) =
    elim (width_of spaces (c ∷ s))
      as (λ n.
        length (elim n as (λ m. List ℕ) [ zero ↦ c ∷ s | suc m ↦ trim_start spaces m s ])
        ≤ length (c ∷ s)) [
          | zero ↦ omega arith
          | suc n ↦ omega (arith, length-trim_start spaces n s)
        ]

length-trim_space : (s : List ℕ) → length (trim_space s) ≤ length s
length-trim_space s =
    let left = trim_start white_space 0 s in
    let right = trim_start (backwards white_space) 0 (reverse left) in
    omega (
      arith,
      length-reverse right,
      length-trim_start (backwards white_space) 0 (reverse left),
      length-reverse left,
      length-trim_start white_space 0 s,
    )

-- No part is longer than the text, and where the separator occurs every part is shorter.
split_from-le :
    (sep : List ℕ) (skipped : ℕ) (part s : List ℕ) (n : ℕ)
    → length part + length s ≤ n
    → All (λ (p : List ℕ). length p ≤ n) (split_from sep skipped part s)
unfolding split_from
split_from-le sep skipped part [] n h = (omega (arith, length-reverse part, h), tt)
split_from-le sep (suc skipped) part (c ∷ s) n h =
    split_from-le sep skipped part s n (omega (arith, h))
split_from-le sep zero part (c ∷ s) n h = elim (Bool-cases (has_prefix sep (c ∷ s))) [
  | inl e ↦
      rw (e, split_from)
        (
          omega (arith, length-reverse part, h),
          split_from-le sep (length sep - 1) [] s n (omega (arith, h)),
        )
  | inr e ↦ rw (e, split_from) (split_from-le sep zero (c ∷ part) s n (omega (arith, h)))
]

split_from-lt :
    (sep part s : List ℕ) (n : ℕ)
    → has_prefix sep [] ≡ false
    → contains_text sep s ≡ true
    → length part + length s ≤ suc n
    → All (λ (p : List ℕ). length p ≤ n) (split_from sep 0 part s)
unfolding split_from contains_text
split_from-lt sep part [] n d present h = cc
split_from-lt sep part (c ∷ s) n d present h = elim (Bool-cases (has_prefix sep (c ∷ s))) [
  | inl e ↦
      rw (e, split_from)
        (
          omega (arith, length-reverse part, h),
          split_from-le sep (length sep - 1) [] s n (omega (arith, h)),
        )
  | inr e ↦
      rw (e, split_from)
        (split_from-lt sep (c ∷ part) s n d (ground (arith, e, present)) (omega (arith, h)))
]

-- The parser returns something for this text.
abbrev pub IsParsed : {A : Type 0} → Option A → Type 0
IsParsed {A = A} result = (r : A) × (result ≡ some r)

add_child_ends :
    (c : QueryCondition) (rest : Option (Result ParseFailure Children))
    → IsParsed rest
    → IsParsed (add_child c rest)
add_child_ends c rest (r, e) = rw e (_, refl)

join_children_ends :
    (op : OperatorType) (each : Option (Result ParseFailure Children))
    → IsParsed each
    → IsParsed (join_children op each)
join_children_ends op each (r, e) = rw e (_, refl)

List-cases : {A : Type 0} (xs : List A) → (xs ≡ []) ⊎ ((x : A) × (ys : List A) × (xs ≡ x ∷ ys))
List-cases [] = inl refl
List-cases (x ∷ ys) = inr (x, ys, refl)

parse_each_ends :
    (parse : List ℕ → Option (Result ParseFailure QueryCondition)) (n : ℕ) (strings : List (List ℕ))
    → ((t : List ℕ) → length t ≤ n → IsParsed (parse t))
    → All (λ (p : List ℕ). length p ≤ n) strings
    → IsParsed (parse_each parse strings)
unfolding parse_each
parse_each_ends parse n [] ends short = (_, refl)
parse_each_ends parse n (s ∷ strings) ends (here, short) =
    let rest = parse_each_ends parse n strings ends short in
    elim (List-cases (trim_space s)) [
      | inl e ↦ rw (e, parse_each) rest
      | inr (c, t, e) ↦
          let (r, parsed) = ends (c ∷ t) (omega (arith, length-trim_space s, ap length e, here)) in
          elim (Result-cases r) [
            | inr (failure, f) ↦ rw (e, parsed, f, parse_each) (_, refl)
            | inl (found, f) ↦ rw (e, parsed, f, parse_each) (add_child_ends found _ rest)
          ]
    ]

no_and : contains_text (codes " and ") [] ≡ false
unfolding contains_text has_prefix
no_and = refl

no_or : contains_text (codes " or ") [] ≡ false
unfolding contains_text has_prefix
no_or = refl

module _ (lib : Conversions) (scan : Scanner) where
  parse_condition_string_ends :
      (fuel : ℕ) (s : List ℕ) → length s < fuel → IsParsed (parse_condition_string lib scan fuel s)
  unfolding parse_condition_string has_prefix
  parse_condition_string_ends zero s h = ground (arith, h)
  parse_condition_string_ends (suc fuel) [] h = elim (Option-cases (parse_by_pattern lib scan [])) [
    | inr (result, e) ↦ rw (e, parse_condition_string) (_, refl)
    | inl e ↦ rw (e, no_and, no_or, parse_condition_string) (_, refl)
  ]
  parse_condition_string_ends (suc fuel) (c ∷ s) h =
      elim (Option-cases (parse_by_pattern lib scan (c ∷ s))) [
        | inr (result, e) ↦ rw (e, parse_condition_string) (_, refl)
        | inl e ↦ elim (Bool-cases (contains_text (codes " and ") (c ∷ s))) [
          | inl w ↦
              rw (e, w, parse_condition_string)
                (join_children_ends op_and _ (
                  parse_each_ends (parse_condition_string lib scan fuel) (length s)
                    (split (c ∷ s) (codes " and "))
                    (λ t short. parse_condition_string_ends fuel t (omega (arith, short, h)))
                    (split_from-lt (codes " and ") [] (c ∷ s) (length s) refl w (omega arith))))
          | inr v ↦ elim (Bool-cases (contains_text (codes " or ") (c ∷ s))) [
            | inl w ↦
                rw (e, v, w, parse_condition_string)
                  (join_children_ends op_or _ (
                    parse_each_ends (parse_condition_string lib scan fuel) (length s)
                      (split (c ∷ s) (codes " or "))
                      (λ t short. parse_condition_string_ends fuel t (omega (arith, short, h)))
                      (split_from-lt (codes " or ") [] (c ∷ s) (length s) refl w (omega arith))))
            | inr w ↦ rw (e, v, w, parse_condition_string) (_, refl)
          ]
        ]
      ]

  parse_part_ends : (part : List ℕ) (query : Query) → IsParsed (parse_part lib scan part query)
  unfolding parse_part
  parse_part_ends part query =
      let (result, parsed) = parse_condition_string_ends (suc (length part)) part (omega arith) in
      elim (Bool-cases (has_prefix (codes "limit:") part)) [
        | inl e ↦ rw (e, parse_part) (_, refl)
        | inr e ↦ elim (Bool-cases (has_prefix (codes "offset:") part)) [
          | inl f ↦ rw (e, f, parse_part) (_, refl)
          | inr f ↦ elim (Bool-cases (has_prefix (codes "sort:") part)) [
            | inl g ↦ rw (e, f, g, parse_part) (_, refl)
            | inr g ↦ rw (e, f, g, parsed, parse_part) (_, refl)
          ]
        ]
      ]

  parse_parts_ends :
      (parts : List (List ℕ)) (query : Query) → IsParsed (parse_parts lib scan parts query)
  unfolding parse_parts
  parse_parts_ends [] query = (_, refl)
  parse_parts_ends (part ∷ parts) query = elim (List-cases (trim_space part)) [
    | inl e ↦ rw (e, parse_parts) (parse_parts_ends parts query)
    | inr (c, s, e) ↦
        let (r, parsed) = parse_part_ends (c ∷ s) query in
        elim (Result-cases r) [
          | inr (failure, f) ↦ rw (e, parsed, f, parse_parts) (_, refl)
          | inl (next, f) ↦ rw (e, parsed, f, parse_parts) (parse_parts_ends parts next)
        ]
  ]

  -- ParseQueryString ends on every string: with a query, with an error, or with the panic of a
  -- slice. The parts of a condition that it parses in turn, which are trimmed and lie between
  -- separators, are shorter than the condition, so that the fuel, one more than a condition's
  -- length, is enough.
  pub parse_query_string_ends :
      (s : List ℕ)
      → (result : Result ParseFailure Query) × (parse_query_string lib scan s ≡ some result)
  unfolding parse_query_string
  parse_query_string_ends [] = (_, refl)
  parse_query_string_ends (c ∷ s) = parse_parts_ends (split (c ∷ s) (codes ";")) _
