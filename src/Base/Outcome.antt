-- ===== src/Base/Outcome.antt =====
-- Go's (value, error) pair, where the value counts only when the error is nil.
use mathlib.Core.Path.{◌≡◌, refl}
use mathlib.Core.Logic.{◌⊎◌, inl, inr}
use native.Mathlib.Omega.{arith}

pub data Result {ℓ} (E : Type 0) (A : Type ℓ) : Type ℓ where
  ok : A → Result E A
  err : E → Result E A

infixl 5 ◌>>=◌ ◌>>◌
abbrev pub ◌>>=◌ {ℓ κ} :
    {E : Type 0} {A : Type ℓ} {B : Type κ} → Result E A → (A → Result E B) → Result E B
err failure >>= next = err failure
ok value >>= next = next value

abbrev pub ◌>>◌ {ℓ} : {E : Type 0} {B : Type ℓ} → Result E (Unit {0}) → Result E B → Result E B
check >> rest = check >>= λ done. rest

-- `return fmt.Errorf("…: %w", err)`
abbrev pub map_err {ℓ} : {E F : Type 0} {A : Type ℓ} → (E → F) → Result E A → Result F A
map_err f (ok a) = ok a
map_err f (err e) = err (f e)

-- Where a chain of two steps succeeds, both have succeeded.
pub bind_inv {ℓ κ} :
    {E : Type 0} {A : Type ℓ} {B : Type κ} (first : Result E A) (next : A → Result E B) {b : B}
    → (first >>= next) ≡ ok b
    → (value : A) × (first ≡ ok value) × (next value ≡ ok b)
bind_inv (err failure) next chain = cc
bind_inv (ok value) next chain = (value, refl, chain)

pub Result-cases {ℓ} :
    {E : Type 0} {A : Type ℓ} (r : Result E A) → ((a : A) × (r ≡ ok a)) ⊎ ((e : E) × (r ≡ err e))
Result-cases (ok a) = inl (a, refl)
Result-cases (err e) = inr (e, refl)

pub map_err-eq-ok {ℓ} :
    {E F : Type 0} {A : Type ℓ} (f : E → F) (r : Result E A) {a : A} → map_err f r ≡ ok a → r ≡ ok a
map_err-eq-ok f (ok b) h = ground arith
map_err-eq-ok f (err e) h = cc

pub ok_inj {ℓ} : {E : Type 0} {A : Type ℓ} {a b : A} → ◌≡◌ {A = Result E A} (ok a) (ok b) → a ≡ b
ok_inj h = cc
