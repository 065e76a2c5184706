-- ===== src/Base/Bytes.antt =====
-- encoding/binary and io.ReadFull on byte lists: unsigned integers in little-endian and big-endian
-- order, and the reading of exactly n bytes.
use Prim.Native.Nat.{ℕ, zero, suc, ◌+◌, ◌*◌, ◌/◌, ◌%◌, ◌^◌, ◌<◌, ◌≤◌}
use mathlib.Core.Path.{◌≡◌, refl, ap, ◌∙◌}
use mathlib.Core.Option
use mathlib.Core.Option.{Option, none, some}
use mathlib.Core.List.{List, [], ◌∷◌, ◌++◌, reverse, reverse-reverse}
use native.Mathlib.Omega.{arith}
use native.Mathlib.Nat.{pow-suc}
use fragmenta.Base.Lists.{length, length-reverse, All}
use fragmenta.Base.Tests.{Option-cases}
use mathlib.Core.Logic.{inl, inr}
use fragmenta.Base.Outcome.{Result, ok, err}

abbrev pub IsByte : ℕ → Type 0
IsByte b = b < 256

-- The low `k` bytes of `v`, lowest first: binary.LittleEndian of a k-byte integer.
unfoldable pub le_bytes : ℕ → ℕ → List ℕ
le_bytes zero v = []
le_bytes (suc k) v = v % 256 ∷ le_bytes k (v / 256)

unfoldable pub le_value : List ℕ → ℕ
le_value [] = 0
le_value (b ∷ bs) = b + 256 * le_value bs

-- binary.BigEndian.
unfoldable pub be_bytes : ℕ → ℕ → List ℕ
unfolding le_bytes
be_bytes k v = reverse (le_bytes k v)

unfoldable pub be_value : List ℕ → ℕ
unfolding le_value
be_value bs = le_value (reverse bs)

pub length-le_bytes : (k v : ℕ) → length (le_bytes k v) ≡ k
unfolding le_bytes
length-le_bytes zero v = refl
length-le_bytes (suc k) v = ap suc (length-le_bytes k (v / 256))

pub le_bytes-IsByte : (k v : ℕ) → All IsByte (le_bytes k v)
unfolding le_bytes
le_bytes-IsByte zero v = tt
le_bytes-IsByte (suc k) v = (omega arith, le_bytes-IsByte k (v / 256))

pub le_value-le_bytes : (k v : ℕ) → v < 256 ^ k → le_value (le_bytes k v) ≡ v
unfolding le_bytes le_value
le_value-le_bytes zero v h = omega arith
le_value-le_bytes (suc k) v h =
    omega (arith, pow-suc 256 k, le_value-le_bytes k (v / 256) (omega (arith, pow-suc 256 k)))

pub le_value-lt : (bs : List ℕ) → All IsByte bs → le_value bs < 256 ^ length bs
unfolding le_value
le_value-lt [] h = omega arith
le_value-lt (b ∷ bs) (hb, h) = omega (arith, pow-suc 256 (length bs), le_value-lt bs h)

pub length-be_bytes : (k v : ℕ) → length (be_bytes k v) ≡ k
unfolding be_bytes
length-be_bytes k v = length-reverse (le_bytes k v) ∙ length-le_bytes k v

pub be_value-be_bytes : (k v : ℕ) → v < 256 ^ k → be_value (be_bytes k v) ≡ v
unfolding be_bytes be_value
be_value-be_bytes k v h = rw reverse-reverse (le_value-le_bytes k v h)

-- The first `n` bytes and what follows them, if there are so many.
unfoldable pub split_at : ℕ → List ℕ → Option (List ℕ × List ℕ)
split_at zero src = some ([], src)
split_at (suc n) [] = none
split_at (suc n) (b ∷ src) = Option.map (λ p. (b ∷ p.0, p.1)) (split_at n src)

pub split_at-append : (bs rest : List ℕ) → split_at (length bs) (bs ++ rest) ≡ some (bs, rest)
unfolding split_at
split_at-append [] rest = refl
split_at-append (b ∷ bs) rest = ground (arith, split_at-append bs rest)

pub split_at_inv :
    (n : ℕ) (src bs rest : List ℕ)
    → split_at n src ≡ some (bs, rest)
    → (src ≡ bs ++ rest) × (length bs ≡ n)
unfolding split_at
split_at_inv zero src bs rest h = ground arith
split_at_inv (suc n) [] bs rest h = cc
split_at_inv (suc n) (b ∷ src) bs rest h = elim (Option-cases (split_at n src)) [
  | inl e ↦ ground arith
  | inr ((cs, more), e) ↦ ground (arith, split_at_inv n src cs more)
]

pub split_at_total :
    (n : ℕ) (src : List ℕ)
    → n ≤ length src
    → (bs rest : List ℕ) × (split_at n src ≡ some (bs, rest))
unfolding split_at
split_at_total zero src h = ([], src, refl)
split_at_total (suc n) [] h = absurd (omega arith)
split_at_total (suc n) (b ∷ src) h =
    let (bs, rest, e) = split_at_total n src (omega arith) in (b ∷ bs, rest, ground arith)

-- io.ReadFull's errors: nothing could be read, or too little.
pub data ReadError : Type 0 where
  eof unexpected_eof : ReadError

abbrev short_read : List ℕ → ReadError
short_read [] = eof
short_read (b ∷ bs) = unexpected_eof

-- io.ReadFull into a buffer of `n` bytes; the reader is the list of what is left to read.
unfoldable pub read_full : ℕ → List ℕ → Result ReadError (List ℕ × List ℕ)
unfolding split_at
read_full n src = elim (split_at n src) [ none ↦ err (short_read src) | some p ↦ ok p ]

pub read_full-append :
    (bs rest : List ℕ) (n : ℕ) → length bs ≡ n → read_full n (bs ++ rest) ≡ ok (bs, rest)
unfolding read_full
read_full-append bs rest n h = rw (← h) (rw (split_at-append bs rest, read_full))

pub read_full_inv :
    (n : ℕ) (src bs rest : List ℕ)
    → read_full n src ≡ ok (bs, rest)
    → (src ≡ bs ++ rest) × (length bs ≡ n)
unfolding read_full
read_full_inv n src bs rest h = elim (Option-cases (split_at n src)) [
  | inl e ↦ ground arith
  | inr (p, e) ↦ ground (arith, split_at_inv n src bs rest)
]
