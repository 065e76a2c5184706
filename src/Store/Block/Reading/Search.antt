-- ===== src/Store/Block/Reading/Search.antt =====
-- The search for a block ends.
use fragmenta.Base.{ℕ, zero, suc, ◌+◌, ◌≤◌, ◌<◌, ◌%◌, ◌≡◌, ◌≢◌, ◌^◌, ap, arith, List}
use fragmenta.Base.{none, some, All, length, drop, false, leb, ◌==◌, ok, err}
use fragmenta.Base.{
  bind_inv, Bool-cases, inl, inr, map_err-eq-ok, Result-cases, length-append, length-drop, All-drop,
  All-append_inv, All-reverse, ok_inj,
}
use fragmenta.Base.Bytes.{IsByte, le_value, be_value, le_value-lt, read_full, read_full_inv}
use fragmenta.Store.Disk.{read_be}
use fragmenta.Store.Block.{BlockManager}
use fragmenta.Store.Block.Reading.{
  out_of_fuel, reading, field, block_at, find_block, fuel_for, search,
}
use mathlib.Core.List.{reverse}
use mathlib.Core.Path.{subst}
use fragmenta.Base.{length-reverse}
use native.Mathlib.Nat.{mod-eq_of_lt}

be_value-lt : (bs : List ℕ) → All IsByte bs → be_value bs < 256 ^ length bs
unfolding be_value
be_value-lt bs h =
    subst (λ n. le_value (reverse bs) < 256 ^ n) (length-reverse bs)
      (le_value-lt (reverse bs) (All-reverse IsByte bs h))

-- What a read of `k` bytes took, if it has succeeded.
field_inv :
    (k : ℕ) (src : List ℕ) (v : ℕ) (rest : List ℕ)
    → All IsByte src
    → field k src ≡ ok (v, rest)
    → (k ≤ length src) × (v < 256 ^ k) × All IsByte rest
unfolding read_be
field_inv k src v rest h e =
    let e' = map_err-eq-ok reading (read_be k src) e in
    let ((bytes, rest'), read, done) =
      bind_inv (read_full k src) (λ p. ok (be_value p.0, p.1)) e' in
    let (split, size) = read_full_inv k src bytes rest' read in
    let parts = All-append_inv IsByte bytes rest' (subst (All IsByte) split h) in
    let same : (be_value bytes ≡ v) × (rest' ≡ rest) =
      (ap (λ p. p.0) (ok_inj done), ap (λ p. p.1) (ok_inj done)) in
    (
      omega (arith, ap length split, length-append bytes rest', size),
      subst (λ n. n < 256 ^ k) same.0
          (subst (λ n. be_value bytes < 256 ^ n) size (be_value-lt bytes parts.0)),
      subst (All IsByte) same.1 parts.1,
    )

some_inj : {a b : ℕ} → some a ≡ some b → a ≡ b
some_inj h = cc

block_at_inv :
    (id : ℕ) (src : List ℕ) (size : ℕ)
    → All IsByte src
    → block_at id src ≡ ok (some size)
    → (4 ≤ length src) × (size < 2 ^ 32)
unfolding block_at
block_at_inv id src size h e =
    let ((current, rest), first, more) = bind_inv (field 4 src) _ e in
    let (long, _, bytes) = field_inv 4 src current rest h first in
    elim (Bool-cases (current == id)) [
      | inl same ↦ cc (ok_inj (rw (same) at more))
      | inr other ↦
          let ((size', rest'), second, done) =
            bind_inv (field 4 (drop 4 rest)) _ (rw (other) at more) in
          let (_, small, _) =
            field_inv 4 (drop 4 rest) size' rest' (All-drop IsByte 4 rest bytes) second in
          (long, subst (λ n. n < 2 ^ 32) (some_inj (ok_inj done)) small)
    ]

field-ends : (k : ℕ) (src : List ℕ) → field k src ≢ err out_of_fuel
field-ends k src e = elim (Result-cases (read_be k src)) [
  | inl (a, q) ↦ ground arith
  | inr (x, q) ↦ ground arith
]

block_at-ends : (id : ℕ) (src : List ℕ) → block_at id src ≢ err out_of_fuel
unfolding block_at
block_at-ends id src e = elim (Result-cases (field 4 src)) [
  | inl ((current, rest), q) ↦ elim (Result-cases (field 4 (drop 4 rest))) [
    | inl (a, r) ↦ ground arith
    | inr (x, r) ↦ ground (arith, field-ends 4 (drop 4 rest))
  ]
  | inr (x, q) ↦ ground (arith, field-ends 4 src)
]

onward :
    (offset size : ℕ)
    → size < 2 ^ 32
    → leb (2 ^ 63) offset ≡ false
    → (offset + (64 + size)) % 2 ^ 64 ≡ offset + (64 + size)
onward offset size small low =
    mod-eq_of_lt (let p : offset < 2 ^ 63 = ground arith in omega (arith, p))

find_block-ends :
    (fuel : ℕ) (content : List ℕ) (id end offset : ℕ)
    → All IsByte content
    → 0 < fuel
    → length content < offset + fuel
    → find_block fuel content id end offset ≢ err out_of_fuel
unfolding find_block
find_block-ends zero content id end offset h some_fuel enough = absurd (omega arith)
find_block-ends (suc fuel) content id end offset h some_fuel enough =
    elim (Result-cases (block_at id (drop offset content))) [
      | inr (x, q) ↦ ground (arith, block_at-ends id (drop offset content))
      | inl (none, q) ↦ ground arith
      | inl (some size, q) ↦
          let (long, small) =
            block_at_inv id (drop offset content) size (All-drop IsByte offset content h) q in
          let within : offset + 4 ≤ length content = omega (arith, length-drop offset content) in
          elim (Bool-cases (leb (2 ^ 63) offset)) [
            | inl high ↦ ground arith
            | inr low ↦
                let next = onward offset size small low in
                ground (
                  arith,
                  find_block-ends fuel content id end ((offset + (64 + size)) % 2 ^ 64) h
                      (omega arith) (omega (arith, next)),
                )
          ]
    ]

-- The search for a block in a file ends, whatever bytes the file holds: it does not run out of
-- fuel, which is the file's length and two.
pub search_ends :
    (id : ℕ) (bm : BlockManager) → All IsByte bm.file.content → search id bm ≢ err out_of_fuel
unfolding search
search_ends id bm h =
    find_block-ends (fuel_for bm.file.content) bm.file.content id _ bm.header.block_offset h
      (omega arith) (omega arith)
