-- ===== src/Store/Metadata/Batch/Effects.antt =====
-- What a batch does to the metadata, with and without the lock of the whole batch.
use fragmenta.Base.{ℕ, ◌≡◌, ◌≢◌, refl, sym, ap, ◌∙◌, arith, List, [], ◌∷◌, Option, none}
use fragmenta.Base.{Bool, true, false, if◌then◌else◌, Option-cases, inl, inr}
use fragmenta.Base.Int.{ℤ}
use fragmenta.Base.Map.{nat_eq, insert, delete, lookup, lookup-insert, lookup-delete}
use fragmenta.Store.Metadata.{
  Manager, Entries, MetadataError, is_protected, set_metadata, get_metadata,
}
use fragmenta.Store.Metadata.{delete_metadata}
use fragmenta.Store.Metadata.Batch.{
  Batch, Operation, OperationKind, setting, deleting, appending, unknown,
}
use fragmenta.Store.Metadata.Batch.{
  atomic_step, append_metadata, single_step, batch_step, batch_loop,
}
use fragmenta.Store.Metadata.Batch.{
  LoopEnd, stopped, finished, end_state, Clock, later, latest, must_stop,
}
use fragmenta.Store.Metadata.Batch.{close_batch, batch_operation, joined}
use mathlib.Core.Path.{subst}

-- What one operation is to do to the metadata.
unfoldable pub effect : OperationKind → ℕ → List ℕ → Entries → Entries
effect setting tag value m = insert tag value m
effect deleting tag value m = if is_protected tag then m else delete tag m
effect appending tag value m = insert tag (joined (lookup tag m) value) m
effect unknown tag value m = m

unfoldable pub effects : List Operation → Entries → Entries
effects [] m = m
effects (op ∷ ops) m = effects ops (effect op.operation op.tag op.value m)

delete-absent : (key : ℕ) (m : Entries) → lookup key m ≡ none → delete key m ≡ m
unfolding delete lookup
delete-absent key [] h = refl
delete-absent key ((k, v) ∷ m) h = ground (arith, delete-absent key m)

atomic_step-effect :
    (kind : OperationKind) (tag : ℕ) (value : List ℕ) (mm : Manager)
    → (atomic_step kind tag value mm).1.metadata ≡ effect kind tag value mm.metadata
unfolding atomic_step effect
atomic_step-effect setting tag value mm = refl
atomic_step-effect deleting tag value mm = ground arith
atomic_step-effect appending tag value mm = refl
atomic_step-effect unknown tag value mm = refl

single_step-effect :
    (times : ℤ × ℤ) (kind : OperationKind) (tag : ℕ) (value : List ℕ) (mm : Manager)
    → (single_step times kind tag value mm).1.metadata ≡ effect kind tag value mm.metadata
unfolding single_step effect set_metadata delete_metadata append_metadata get_metadata
single_step-effect times setting tag value mm = refl
single_step-effect times deleting tag value mm = elim (Option-cases (lookup tag mm.metadata)) [
  | inl e ↦ ground (arith, delete-absent tag mm.metadata)
  | inr (existing, e) ↦ ground arith
]
single_step-effect times appending tag value mm = elim (Option-cases (lookup tag mm.metadata)) [
  | inl e ↦ ground arith
  | inr (existing, e) ↦ ground arith
]
single_step-effect times unknown tag value mm = refl

pub batch_step-effect :
    (atomic : Bool) (times : ℤ × ℤ) (op : Operation) (mm : Manager)
    → (batch_step atomic times op mm).1.metadata ≡ effect op.operation op.tag op.value mm.metadata
unfolding batch_step
batch_step-effect true times op mm = atomic_step-effect op.operation op.tag op.value mm
batch_step-effect false times op mm = single_step-effect times op.operation op.tag op.value mm

batch_loop-effects :
    (atomic : Bool) (clock : Clock) (ops : List Operation) (last : Option MetadataError)
    (mm : Manager)
    → (end_state (batch_loop atomic false clock ops last mm)).metadata ≡ effects ops mm.metadata
unfolding batch_loop effects
batch_loop-effects atomic clock [] last mm = refl
batch_loop-effects atomic clock (op ∷ ops) last mm =
    batch_loop-effects atomic (later clock) ops (latest (batch_step atomic (clock 0) op mm).0 last)
      (batch_step atomic (clock 0) op mm).1
    ∙ ap (effects ops) (batch_step-effect atomic (clock 0) op mm)

pub close_batch-metadata :
    (atomic : Bool) (now : ℤ) (end : LoopEnd)
    → (close_batch atomic now end).1.metadata ≡ (end_state end).metadata
unfolding close_batch
close_batch-metadata true now (stopped e mm) = refl
close_batch-metadata false now (stopped e mm) = refl
close_batch-metadata true now (finished last mm) = refl
close_batch-metadata false now (finished last mm) = refl

-- A batch that does not stop at an error changes the metadata by each of its operations in turn,
-- whether it runs under one lock or calls the manager's methods: a value is set, appended to what
-- is there or set where nothing is, and deleted unless its tag is protected.
pub batch_operation-effects :
    (clock : Clock) (now : ℤ) (batch : Batch) (mm : Manager)
    → batch.rollback_on_error ≡ false
    → (batch_operation clock now batch mm).1.metadata ≡ effects batch.operations mm.metadata
unfolding batch_operation
batch_operation-effects clock now batch mm on =
    close_batch-metadata batch.atomic_exec now _
    ∙ ap
        (λ rollback.
          (end_state
            (batch_loop batch.atomic_exec rollback clock batch.operations none mm)).metadata)
        on
    ∙ batch_loop-effects batch.atomic_exec clock batch.operations none mm

-- A value stands under the tag.
abbrev pub IsPresent : ℕ → Entries → Type 0
IsPresent tag m = lookup tag m ≢ none

pub insert-IsPresent :
    (tag key : ℕ) (value : List ℕ) (m : Entries)
    → IsPresent tag m
    → IsPresent tag (insert key value m)
insert-IsPresent tag key value m h = ground (arith, lookup-insert key tag value m)

effect-IsPresent :
    (kind : OperationKind) (tag key : ℕ) (value : List ℕ) (m : Entries)
    → is_protected tag ≡ true
    → IsPresent tag m
    → IsPresent tag (effect kind key value m)
unfolding effect
effect-IsPresent setting tag key value m p h = insert-IsPresent tag key value m h
effect-IsPresent deleting tag key value m p h = ground (arith, lookup-delete key tag m)
effect-IsPresent appending tag key value m p h = insert-IsPresent tag key _ m h
effect-IsPresent unknown tag key value m p h = h

batch_loop-IsPresent :
    (atomic rollback : Bool) (clock : Clock) (ops : List Operation) (last : Option MetadataError)
    (mm : Manager) (tag : ℕ)
    → is_protected tag ≡ true
    → IsPresent tag mm.metadata
    → IsPresent tag (end_state (batch_loop atomic rollback clock ops last mm)).metadata
unfolding batch_loop
batch_loop-IsPresent atomic rollback clock [] last mm tag p h = h
batch_loop-IsPresent atomic rollback clock (op ∷ ops) last mm tag p h =
    elim (Option-cases (must_stop rollback (batch_step atomic (clock 0) op mm).0)) [
      | inl e ↦
          rw (end_state, e) (batch_loop-IsPresent atomic rollback (later clock) ops _ _ tag p kept)
      | inr (failure, e) ↦ rw (end_state, e) kept
    ]
  where
    kept : IsPresent tag (batch_step atomic (clock 0) op mm).1.metadata
    kept =
        subst (IsPresent tag) (sym (batch_step-effect atomic (clock 0) op mm))
          (effect-IsPresent op.operation tag op.tag op.value mm.metadata p h)

pub batch_operation-IsPresent :
    (clock : Clock) (now : ℤ) (batch : Batch) (mm : Manager) (tag : ℕ)
    → is_protected tag ≡ true
    → IsPresent tag mm.metadata
    → IsPresent tag (batch_operation clock now batch mm).1.metadata
unfolding batch_operation
batch_operation-IsPresent clock now batch mm tag p h =
    subst (IsPresent tag) (sym (close_batch-metadata batch.atomic_exec now _)) (
      batch_loop-IsPresent batch.atomic_exec batch.rollback_on_error clock batch.operations none mm
        tag p h)
