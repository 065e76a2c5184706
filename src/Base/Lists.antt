-- ===== src/Base/Lists.antt =====
-- Lists measured by native numbers, under the library's names.
use Prim.Native.Nat.{ℕ, zero, suc, ◌+◌, ◌-◌, min}
use mathlib.Core.Path.{◌≡◌, refl, ap, sym, subst}
use mathlib.Core.Bool.{Bool, true, false, ◌&&◌, ◌||◌}
use mathlib.Core.List.{List, [], ◌∷◌, ◌++◌, reverse, reverse-append}
use native.Mathlib.Omega.{arith}
use fragmenta.Base.Tests.{◌==◌, if◌then◌else◌}

module _ {ℓ} {A : Type ℓ} where
  abbrev pub length : List A → ℕ
  length [] = 0
  length (x ∷ xs) = suc (length xs)

  abbrev pub take : ℕ → List A → List A
  take zero xs = []
  take (suc n) [] = []
  take (suc n) (x ∷ xs) = x ∷ take n xs

  abbrev pub drop : ℕ → List A → List A
  drop zero xs = xs
  drop (suc n) [] = []
  drop (suc n) (x ∷ xs) = drop n xs

  abbrev pub any : (A → Bool) → List A → Bool
  any p [] = false
  any p (x ∷ xs) = p x || any p xs

  abbrev pub all : (A → Bool) → List A → Bool
  all p [] = true
  all p (x ∷ xs) = p x && all p xs

  abbrev pub All {κ} : (A → Type κ) → List A → Type κ
  All P [] = Unit {κ}
  All P (x ∷ xs) = P x × All P xs

  pub length-append : (xs ys : List A) → length (xs ++ ys) ≡ length xs + length ys
  length-append [] ys = omega arith
  length-append (x ∷ xs) ys = omega (arith, length-append xs ys)

  pub length-take : (n : ℕ) (xs : List A) → length (take n xs) ≡ min n (length xs)
  length-take zero xs = omega arith
  length-take (suc n) [] = omega arith
  length-take (suc n) (x ∷ xs) = omega (arith, length-take n xs)

  pub length-drop : (n : ℕ) (xs : List A) → length (drop n xs) ≡ length xs - n
  length-drop zero xs = omega arith
  length-drop (suc n) [] = omega arith
  length-drop (suc n) (x ∷ xs) = omega (arith, length-drop n xs)

module _ {ℓ} {A : Type ℓ} where
  pub length-reverse : (xs : List A) → length (reverse xs) ≡ length xs
  length-reverse [] = refl
  length-reverse (x ∷ xs) = ground (
    arith,
    ap length (reverse-append (x ∷ []) xs),
    length-append (reverse xs) (x ∷ []),
    length-reverse xs,
  )

  pub take-append : (xs ys : List A) → take (length xs) (xs ++ ys) ≡ xs
  take-append [] ys = refl
  take-append (x ∷ xs) ys = rw (take-append xs ys)

module _ {ℓ κ} {A : Type ℓ} (P : A → Type κ) where
  pub All-append : (xs ys : List A) → All P xs → All P ys → All P (xs ++ ys)
  All-append [] ys p q = q
  All-append (x ∷ xs) ys (p, ps) q = (p, All-append xs ys ps q)

  pub All-append_inv : (xs ys : List A) → All P (xs ++ ys) → All P xs × All P ys
  All-append_inv [] ys p = (tt, p)
  All-append_inv (x ∷ xs) ys (p, ps) = let (q, r) = All-append_inv xs ys ps in ((p, q), r)

  pub All-reverse : (xs : List A) → All P xs → All P (reverse xs)
  All-reverse [] p = tt
  All-reverse (x ∷ xs) (p, ps) =
      subst (All P) (sym (reverse-append (x ∷ []) xs))
        (All-append (reverse xs) (x ∷ []) (All-reverse xs ps) (p, tt))

  pub All-drop : (n : ℕ) (xs : List A) → All P xs → All P (drop n xs)
  All-drop zero xs p = p
  All-drop (suc n) [] p = tt
  All-drop (suc n) (x ∷ xs) (p, ps) = All-drop n xs ps

abbrev pub hit : ℕ → ℕ → ℕ
hit id x = if x == id then 1 else 0

-- How often an id stands in a list of ids.
abbrev pub occurrences : ℕ → List ℕ → ℕ
occurrences id [] = 0
occurrences id (x ∷ ids) = hit id x + occurrences id ids

pub occurrences-append :
    (id : ℕ) (first second : List ℕ)
    → occurrences id (first ++ second) ≡ occurrences id first + occurrences id second
occurrences-append id (x ∷ first) second = omega (arith, occurrences-append id first second)
occurrences-append id [] second = omega arith
