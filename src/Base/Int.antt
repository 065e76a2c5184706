-- ===== src/Base/Int.antt =====
-- Signed machine integers: ℤ over the native numbers, and two's complement of a width in bytes.
use Prim.Native.Nat.{ℕ, suc, ◌+◌, ◌-◌, ◌*◌, ◌%◌, ◌≤◌, ◌<◌}
use mathlib.Core.Path.{◌≡◌}
use mathlib.Core.Bool.{Bool, true}
use native.Mathlib.Omega.{arith}
use native.Mathlib.Nat.{mod-eq_of_lt}
use fragmenta.Base.Tests.{ltb, if◌then◌else◌}

-- `negsuc n` is -(n + 1).
pub data ℤ : Type 0 where
  pos : ℕ → ℤ
  negsuc : ℕ → ℤ

abbrev pub pos_part : ℤ → ℕ
pos_part (pos n) = n
pos_part (negsuc n) = 0

abbrev pub neg_part : ℤ → ℕ
neg_part (pos n) = 0
neg_part (negsuc n) = suc n

abbrev pub ltb_ℤ : ℤ → ℤ → Bool
ltb_ℤ a b = ltb (pos_part a + neg_part b) (pos_part b + neg_part a)

-- `-half ≤ a && a <= half - 1`: the integers that two's complement over 2 * half values has.
abbrev pub IsWithin : ℕ → ℤ → Type 0
IsWithin half a = (pos_part a < half) × (neg_part a ≤ half)

abbrev pub within : ℕ → ℤ → Bool
within half (pos n) = ltb n half
within half (negsuc n) = ltb n half

-- uint64(v) of an int64, and the like: the residue modulo `size`.
unfoldable pub to_unsigned : ℕ → ℤ → ℕ
to_unsigned size (pos n) = n % size
to_unsigned size (negsuc n) = size - 1 - n % size

-- int64(u) of a uint64 below `2 * half`, and the like.
unfoldable pub to_signed : ℕ → ℕ → ℤ
to_signed half u = if ltb u half then pos u else negsuc (2 * half - 1 - u)

pub to_unsigned-lt : (half : ℕ) (a : ℤ) → 0 < half → to_unsigned (2 * half) a < 2 * half
unfolding to_unsigned
to_unsigned-lt half (pos n) h = grind arith
to_unsigned-lt half (negsuc n) h = omega arith

pub to_signed-to_unsigned :
    (half : ℕ) (a : ℤ) → IsWithin half a → to_signed half (to_unsigned (2 * half) a) ≡ a
unfolding to_signed to_unsigned
to_signed-to_unsigned half (pos n) h =
    ground (arith, mod-eq_of_lt (let p : n < 2 * half = omega arith in p))
to_signed-to_unsigned half (negsuc n) h =
    ground (arith, mod-eq_of_lt (let p : n < 2 * half = omega arith in p))

pub within-IsWithin : (half : ℕ) (a : ℤ) → within half a ≡ true → IsWithin half a
within-IsWithin half (pos n) h = ground arith
within-IsWithin half (negsuc n) h = ground arith
