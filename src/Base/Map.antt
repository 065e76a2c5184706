-- ===== src/Base/Map.antt =====
-- A Go map as an association list. The list's order stands for the order of a `range` loop, which
-- Go leaves open.
pub mod Keys
use Prim.Native.Nat.{ℕ}
use mathlib.Core.Path.{◌≡◌, refl}
use mathlib.Core.Logic.{◌↔◌}
use mathlib.Core.Bool.{Bool, true}
use mathlib.Core.Option.{Option, none, some}
use mathlib.Core.List.{List, [], ◌∷◌}
use native.Mathlib.Omega.{arith}
use fragmenta.Base.Tests.{◌==◌, ==_iff, if◌then◌else◌}
use fragmenta.Base.Text.{text_eq, text_eq_iff}

-- `==` on the key type.
pub record Eq (K : Type 0) : Type 0 where
  pub beq : K → K → Bool
  pub beq_iff : (a b : K) → (beq a b ≡ true) ↔ (a ≡ b)

abbrev nat_beq : ℕ → ℕ → Bool
nat_beq a b = a == b

instance abbrev pub nat_eq : Eq ℕ
nat_eq = record { beq = nat_beq; beq_iff = ==_iff }

instance abbrev pub text_keys : Eq (List ℕ)
text_keys = record { beq = text_eq; beq_iff = text_eq_iff }

module _ {K : Type 0} {V : Type 0} ⦃e : Eq K⦄ where
  -- delete(m, key)
  unfoldable pub delete : K → List (K × V) → List (K × V)
  delete key [] = []
  delete key ((k, v) ∷ m) =
      let others = delete key m in if e.beq k key then others else (k, v) ∷ others

  -- m[key] = value; a new key goes to the end.
  unfoldable pub insert : K → V → List (K × V) → List (K × V)
  insert key value [] = (key, value) ∷ []
  insert key value ((k, v) ∷ m) =
      if e.beq k key then (k, value) ∷ m else (k, v) ∷ insert key value m

  -- v, ok := m[key]
  unfoldable pub lookup : K → List (K × V) → Option V
  lookup key [] = none
  lookup key ((k, v) ∷ m) = if e.beq k key then some v else lookup key m

  pub lookup-delete :
      (gone key : K) (m : List (K × V))
      → lookup key (delete gone m) ≡ (if e.beq gone key then none else lookup key m)
  unfolding lookup delete
  lookup-delete gone key [] = ground arith
  lookup-delete gone key ((k, v) ∷ m) =
      ground
        (arith, lookup-delete gone key m, e.beq_iff k gone, e.beq_iff k key, e.beq_iff gone key)

  pub lookup-insert :
      (new key : K) (value : V) (m : List (K × V))
      → lookup key (insert new value m) ≡ (if e.beq new key then some value else lookup key m)
  unfolding lookup insert
  lookup-insert new key value [] = refl
  lookup-insert new key value ((k, v) ∷ m) =
      ground
        (arith, lookup-insert new key value m, e.beq_iff k new, e.beq_iff k key, e.beq_iff new key)
