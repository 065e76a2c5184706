-- ===== src/Store/Block/Ids/Maps.antt =====
-- What the changes of the map of blocks do to the ids in use and to the free ids.
use fragmenta.Base.{ℕ, ◌≤◌, ◌<◌, ◌≡◌, ◌≢◌, sym, ap, ◌∙◌, arith, List, [], ◌∷◌, ◌++◌}
use fragmenta.Base.{All, none, Option-cases, inl, inr}
use fragmenta.Base.Map.{nat_eq, insert, lookup, lookup-insert}
use fragmenta.Store.Block.{BlockHeader, BlockMap}
use fragmenta.Store.Block.{adjust, unlink, set_next, set_previous}

-- An id that was given out before and whose block is gone.
abbrev pub IsFree : ℕ → BlockMap → ℕ → Type 0
IsFree n m id = (0 < id) × (id ≤ n) × (lookup id m ≡ none)

abbrev pub Once : List ℕ → Type 0
Once [] = Unit {0}
Once (id ∷ ids) = All (λ other. id ≢ other) ids × Once ids

-- The ids up to `n` are given out, each in use or free, and no free id is listed twice.
pub record IsConsistent (n : ℕ) (m : BlockMap) (ids : List ℕ) : Type 0 where
  pub used : (id : ℕ) → lookup id m ≢ none → (0 < id) × (id ≤ n)
  pub free : All (IsFree n m) ids
  pub once : Once ids

pub adjust-absent :
    (f : BlockHeader → BlockHeader) (id key : ℕ) (m : BlockMap)
    → lookup key m ≡ none
    → lookup key (adjust f id m) ≡ none
unfolding adjust
adjust-absent f id key m h = elim (Option-cases (lookup id m)) [
  | inl e ↦ ground arith
  | inr (old, e) ↦ ground (arith, lookup-insert id key (f old) m)
]

pub unlink-absent :
    (h : BlockHeader) (key : ℕ) (m : BlockMap)
    → lookup key m ≡ none
    → lookup key (unlink h m) ≡ none
unfolding unlink
unlink-absent h key m e = ground (
  arith,
  adjust-absent (set_next h.next_block) h.previous_block key m,
  adjust-absent (set_previous h.previous_block) h.next_block key m,
  adjust-absent (set_previous h.previous_block) h.next_block key
      (adjust (set_next h.next_block) h.previous_block m),
)

module _ (n : ℕ) where
  pub All-IsFree-map :
      (m m' : BlockMap) (ids : List ℕ)
      → ((key : ℕ) → lookup key m ≡ none → lookup key m' ≡ none)
      → All (IsFree n m) ids
      → All (IsFree n m') ids
  All-IsFree-map m m' [] h f = tt
  All-IsFree-map m m' (id ∷ ids) h ((a, b, c), f) = ((a, b, h id c), All-IsFree-map m m' ids h f)

  pub All-IsFree-insert :
      (m : BlockMap) (id : ℕ) (h : BlockHeader) (ids : List ℕ)
      → All (λ other. id ≢ other) ids
      → All (IsFree n m) ids
      → All (IsFree n (insert id h m)) ids
  All-IsFree-insert m id h [] d f = tt
  All-IsFree-insert m id h (x ∷ ids) (d, ds) ((a, b, c), f) =
      ((a, b, ground (arith, lookup-insert id x h m)), All-IsFree-insert m id h ids ds f)

  pub All-IsFree-differ :
      (m : BlockMap) (id : ℕ) (ids : List ℕ)
      → lookup id m ≢ none
      → All (IsFree n m) ids
      → All (λ other. other ≢ id) ids
  All-IsFree-differ m id [] h f = tt
  All-IsFree-differ m id (x ∷ ids) h ((a, b, c), f) =
      (λ e. h (ap (λ k. lookup k m) (sym e) ∙ c), All-IsFree-differ m id ids h f)

pub All-snoc :
    (P : ℕ → Type 0) (ids : List ℕ) (id : ℕ) → All P ids → P id → All P (ids ++ (id ∷ []))
All-snoc P [] id a p = (p, tt)
All-snoc P (x ∷ ids) id (a, more) p = (a, All-snoc P ids id more p)

pub Once-snoc :
    (ids : List ℕ) (id : ℕ) → Once ids → All (λ other. other ≢ id) ids → Once (ids ++ (id ∷ []))
Once-snoc [] id o d = (tt, tt)
Once-snoc (x ∷ ids) id (o, os) (d, ds) =
    (All-snoc (λ other. x ≢ other) ids id o d, Once-snoc ids id os ds)
