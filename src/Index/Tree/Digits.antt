-- ===== src/Index/Tree/Digits.antt =====
-- The decimal digits of an id: the fuel is enough, so that they are all there and in order.
use fragmenta.Base.{
  ℕ, zero, suc, ◌+◌, ◌-◌, ◌*◌, ◌/◌, ◌%◌, ◌<◌, ◌≡◌, sym, ap, ◌∙◌, arith, List, [], ◌∷◌, ltb,
  Bool-cases, inl, inr,
}
use fragmenta.Index.Tree.{digits, decimal}

-- The number that digits in front of `acc` stand for.
unfoldable value : ℕ → List ℕ → ℕ
value acc [] = acc
value acc (c ∷ cs) = value (10 * acc + (c - 48)) cs

value-digits : (fuel n : ℕ) (rest : List ℕ) → n < fuel → value 0 (digits fuel n rest) ≡ value n rest
unfolding digits value
value-digits zero n rest le = omega (arith, le)
value-digits (suc fuel) n rest le = elim (Bool-cases (ltb n 10)) [
  | inl e ↦ rw e (ap (λ k. value k rest) (omega arith))
  | inr e ↦ rw e (
      value-digits fuel (n / 10) ((48 + n % 10) ∷ rest) (ground (arith, e, le))
      ∙ ap (λ k. value k rest) (omega arith))
]

value-decimal : (id : ℕ) → value 0 (decimal id) ≡ id
unfolding decimal value
value-decimal id = value-digits (suc id) id [] (omega arith)

-- Two ids with the same digits are the same.
pub decimal_injective : (a b : ℕ) → decimal a ≡ decimal b → a ≡ b
decimal_injective a b same = sym (value-decimal a) ∙ ap (value 0) same ∙ value-decimal b
