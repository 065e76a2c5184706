-- ===== src/Base/Map/Keys.antt =====
-- Maps in which no key stands twice, as in every Go map, and their length.
use Prim.Native.Nat.{ℕ, ◌+◌, ◌≤◌}
use mathlib.Core.Path.{◌≡◌, refl}
use mathlib.Core.Logic.{inl, inr}
use mathlib.Core.Bool.{true, false}
use mathlib.Core.Option.{Option, none, some}
use mathlib.Core.List.{List, [], ◌∷◌}
use native.Mathlib.Omega.{arith}
use fragmenta.Base.Tests.{Bool-cases}
use fragmenta.Base.Lists.{length}
use fragmenta.Base.Map.{Eq, insert, delete, lookup, lookup-insert, lookup-delete}

-- One more for a key that is new.
abbrev pub added : {V : Type 0} → Option V → ℕ
added none = 1
added (some v) = 0

abbrev pub gone : {V : Type 0} → Option V → ℕ
gone none = 0
gone (some v) = 1

module _ {K : Type 0} {V : Type 0} ⦃e : Eq K⦄ where
  abbrev pub IsKeyed : List (K × V) → Type 0
  IsKeyed [] = Unit
  IsKeyed ((k, v) ∷ m) = (lookup k m ≡ none) × IsKeyed m

  pub IsKeyed-insert :
      (key : K) (value : V) (m : List (K × V)) → IsKeyed m → IsKeyed (insert key value m)
  unfolding insert
  IsKeyed-insert key value [] u = unfold lookup in (refl, tt)
  IsKeyed-insert key value ((k, v) ∷ m) (absent, u) = elim (Bool-cases (e.beq k key)) [
    | inl h ↦ rw h (absent, u)
    | inr h ↦ rw h (
      ground (arith, h, absent, lookup-insert key k value m, e.beq_iff key k, e.beq_iff k key),
      IsKeyed-insert key value m u,
    )
  ]

  pub IsKeyed-delete : (key : K) (m : List (K × V)) → IsKeyed m → IsKeyed (delete key m)
  unfolding delete
  IsKeyed-delete key [] u = tt
  IsKeyed-delete key ((k, v) ∷ m) (absent, u) = elim (Bool-cases (e.beq k key)) [
    | inl h ↦ rw h (IsKeyed-delete key m u)
    | inr h ↦ rw h (
      ground (arith, h, absent, lookup-delete key k m, e.beq_iff key k, e.beq_iff k key),
      IsKeyed-delete key m u,
    )
  ]

  pub length-insert :
      (key : K) (value : V) (m : List (K × V))
      → length (insert key value m) ≡ length m + added (lookup key m)
  unfolding insert lookup
  length-insert key value [] = omega arith
  length-insert key value ((k, v) ∷ m) = elim (Bool-cases (e.beq k key)) [
    | inl h ↦ rw h (omega arith)
    | inr h ↦ rw h (omega (arith, length-insert key value m))
  ]

  pub length-delete :
      (key : K) (m : List (K × V))
      → IsKeyed m
      → length (delete key m) + gone (lookup key m) ≡ length m
  unfolding delete lookup
  length-delete key [] u = omega arith
  length-delete key ((k, v) ∷ m) (absent, u) = elim (Bool-cases (e.beq k key)) [
    | inl h ↦ rw h (ground (arith, length-delete key m u, missing h))
    | inr h ↦ rw h (omega (arith, length-delete key m u))
  ]
    where
      missing : e.beq k key ≡ true → lookup key m ≡ none
      missing h = ground (arith, h, absent, e.beq_iff k key)

  pub length-lookup :
      (key : K) (value : V) (m : List (K × V)) → lookup key m ≡ some value → 1 ≤ length m
  unfolding lookup
  length-lookup key value [] h = cc
  length-lookup key value (p ∷ m) h = omega arith

  -- In a map of one key, no other is present.
  pub lookup-single :
      (key other : K) (value : V) (m : List (K × V))
      → length m ≡ 1
      → lookup key m ≡ some value
      → e.beq key other ≡ false
      → lookup other m ≡ none
  unfolding lookup
  lookup-single key other value [] n h d = cc
  lookup-single key other value ((k, v) ∷ []) n h d =
      ground (arith, e.beq_iff k key, e.beq_iff k other, e.beq_iff key other)
  lookup-single key other value ((k, v) ∷ p ∷ m) n h d = ground (arith, n)
