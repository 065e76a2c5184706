-- ===== src/Base/Text.antt =====
-- A Go string is a list of bytes. `==` on strings and the tests of package strings.
use Prim.Native.Nat.{ℕ}
use Prim.Native.Char.{code}
use Prim.Native.String.{String}
use mathlib.Core.Path.{◌≡◌, refl, sym, ap, ◌∙◌}
use mathlib.Core.Logic.{◌↔◌}
use mathlib.Core.Bool.{Bool, true, false, ◌&&◌}
use mathlib.Core.List.{List, [], ◌∷◌, ◌++◌, reverse, reverse-append, reverse-reverse}
use native.Mathlib.Omega.{arith}
use fragmenta.Base.Tests.{◌==◌}

-- The bytes of an ASCII literal.
abbrev pub codes : String → List ℕ
codes String.[] = []
codes (String.◌∷◌ c s) = code c ∷ codes s

unfoldable pub text_eq : List ℕ → List ℕ → Bool
text_eq [] [] = true
text_eq [] (y ∷ ys) = false
text_eq (x ∷ xs) [] = false
text_eq (x ∷ xs) (y ∷ ys) = x == y && text_eq xs ys

pub text_eq_iff : (xs ys : List ℕ) → (text_eq xs ys ≡ true) ↔ (xs ≡ ys)
unfolding text_eq
text_eq_iff [] [] = ground arith
text_eq_iff [] (y ∷ ys) = ground arith
text_eq_iff (x ∷ xs) [] = ground arith
text_eq_iff (x ∷ xs) (y ∷ ys) = ground (arith, text_eq_iff xs ys)

pub text_eq_self : (xs : List ℕ) → text_eq xs xs ≡ true
text_eq_self xs = (text_eq_iff xs xs).1 refl

-- strings.HasPrefix(s, p), with the prefix first.
unfoldable pub has_prefix : List ℕ → List ℕ → Bool
has_prefix [] s = true
has_prefix (c ∷ p) [] = false
has_prefix (c ∷ p) (d ∷ s) = c == d && has_prefix p s

-- strings.HasSuffix(s, p), with the suffix first.
unfoldable pub has_suffix : List ℕ → List ℕ → Bool
unfolding has_prefix
has_suffix p s = has_prefix (reverse p) (reverse s)

pub has_prefix-append : (p s : List ℕ) → has_prefix p (p ++ s) ≡ true
unfolding has_prefix
has_prefix-append [] s = refl
has_prefix-append (c ∷ p) s = ground (arith, has_prefix-append p s)

pub has_prefix_inv : (p s : List ℕ) → has_prefix p s ≡ true → (t : List ℕ) × (s ≡ p ++ t)
unfolding has_prefix
has_prefix_inv [] s h = (s, refl)
has_prefix_inv (c ∷ p) [] h = cc
has_prefix_inv (c ∷ p) (d ∷ s) h =
    let (t, e) = has_prefix_inv p s (ground arith) in (t, ground arith)

pub has_suffix_inv : (p s : List ℕ) → has_suffix p s ≡ true → (t : List ℕ) × (s ≡ t ++ p)
unfolding has_suffix
has_suffix_inv p s h =
    let (t, e) = has_prefix_inv (reverse p) (reverse s) h in
    (
      reverse t,
      sym (reverse-reverse s)
          ∙ ap reverse e
          ∙ reverse-append (reverse p) t
          ∙ ap (λ (q : List ℕ). reverse t ++ q) (reverse-reverse p),
    )

pub has_suffix-append : (t p : List ℕ) → has_suffix p (t ++ p) ≡ true
unfolding has_suffix
has_suffix-append t p = rw (reverse-append t p) (has_prefix-append (reverse p) (reverse t))
