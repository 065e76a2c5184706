-- ===== src/Store/Metadata/Batch.antt =====
-- metadata.go (BatchOperation) and structs.go (BatchMetadataOperation, MetadataOperation): several
-- changes of the metadata in a row.
pub mod Effects
use fragmenta.Base.{
  ℕ, zero, suc, ◌+◌, ◌≡◌, List, [], ◌∷◌, ◌++◌, Option, none, some, Bool, true, false,
}
use fragmenta.Base.{if◌then◌else◌, ok, err, Result}
use fragmenta.Base.Int.{ℤ}
use fragmenta.Base.Map.{nat_eq, insert, delete, lookup}
use fragmenta.Store.Metadata.{
  Manager, Entries, MetadataError, protected_metadata, metadata_not_found,
}
use fragmenta.Store.Metadata.{is_protected, set_metadata, get_metadata, delete_metadata}

-- 0, 1 and 2, and the numbers that name no operation.
pub data OperationKind : Type 0 where
  setting deleting appending unknown : OperationKind

pub record Operation : Type 0 where
  pub operation : OperationKind
  pub tag : ℕ
  pub value : List ℕ

pub record Batch : Type 0 where
  pub operations : List Operation
  pub atomic_exec : Bool
  pub rollback_on_error : Bool

abbrev joined : Option (List ℕ) → List ℕ → List ℕ
joined none value = value
joined (some existing) value = existing ++ value

abbrev changed : Entries → Manager → Manager
changed m mm = record mm { metadata = m; is_dirty = true }

-- A round of the loop under the lock of the whole batch.
unfoldable pub atomic_step : OperationKind → ℕ → List ℕ → Manager → Option MetadataError × Manager
atomic_step setting tag value mm = (none, changed (insert tag value mm.metadata) mm)
atomic_step deleting tag value mm =
    if is_protected tag
    then (some protected_metadata, mm)
    else (none, changed (delete tag mm.metadata) mm)
atomic_step appending tag value mm =
    (none, changed (insert tag (joined (lookup tag mm.metadata) value) mm.metadata) mm)
atomic_step unknown tag value mm = (none, mm)

-- A round without it, through the manager's methods. The pair holds the readings of the clock.
unfoldable pub append_metadata :
    ℤ × ℤ → ℕ → List ℕ → Result MetadataError (List ℕ) → Manager → Option MetadataError × Manager
append_metadata times tag value (ok existing) mm =
    (none, set_metadata times.0 times.1 tag (existing ++ value) mm)
append_metadata times tag value (err metadata_not_found) mm =
    (none, set_metadata times.0 times.1 tag value mm)
append_metadata times tag value (err failure) mm = (some failure, mm)

unfoldable pub single_step :
    ℤ × ℤ → OperationKind → ℕ → List ℕ → Manager → Option MetadataError × Manager
single_step times setting tag value mm = (none, set_metadata times.0 times.1 tag value mm)
single_step times deleting tag value mm = delete_metadata times.0 tag mm
single_step times appending tag value mm = append_metadata times tag value (get_metadata tag mm) mm
single_step times unknown tag value mm = (none, mm)

unfoldable pub batch_step : Bool → ℤ × ℤ → Operation → Manager → Option MetadataError × Manager
batch_step true times op mm = atomic_step op.operation op.tag op.value mm
batch_step false times op mm = single_step times op.operation op.tag op.value mm

-- How the loop ends: by the return in its middle, or with the last error.
pub data LoopEnd : Type 0 where
  stopped : MetadataError → Manager → LoopEnd
  finished : Option MetadataError → Manager → LoopEnd

abbrev pub end_state : LoopEnd → Manager
end_state (stopped e mm) = mm
end_state (finished last mm) = mm

abbrev pub Clock : Type 0
Clock = ℕ → ℤ × ℤ

abbrev pub later : Clock → Clock
later clock n = clock (suc n)

abbrev pub latest : Option MetadataError → Option MetadataError → Option MetadataError
latest none last = last
latest (some e) last = some e

abbrev pub must_stop : Bool → Option MetadataError → Option MetadataError
must_stop true e = e
must_stop false e = none

-- The loop of BatchOperation. `clock n` is what the clock says in round n.
unfoldable pub batch_loop :
    Bool → Bool → Clock → List Operation → Option MetadataError → Manager → LoopEnd
batch_loop atomic rollback clock [] last mm = finished last mm
batch_loop atomic rollback clock (op ∷ ops) last mm =
    let after = batch_step atomic (clock 0) op mm in
    let rest = batch_loop atomic rollback (later clock) ops (latest after.0 last) after.1 in
    elim (must_stop rollback after.0) [ none ↦ rest | some e ↦ stopped e after.1 ]

unfoldable pub close_batch : Bool → ℤ → LoopEnd → Option MetadataError × Manager
close_batch atomic now (stopped e mm) = (some e, mm)
close_batch atomic now (finished last mm) =
    (last, if atomic then record mm { last_modified = now } else mm)

-- BatchOperation, for a batch that is not nil.
unfoldable pub batch_operation : Clock → ℤ → Batch → Manager → Option MetadataError × Manager
batch_operation clock now batch mm =
    close_batch batch.atomic_exec now
      (batch_loop batch.atomic_exec batch.rollback_on_error clock batch.operations none mm)
