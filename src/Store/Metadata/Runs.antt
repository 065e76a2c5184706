-- ===== src/Store/Metadata/Runs.antt =====
-- Theorems of the metadata manager at concrete inputs.
use fragmenta.Store.Runs.{new_header, old_file}
use fragmenta.Base.{true, false, some, none}
use fragmenta.Base.{length, ltb, ◌%◌, ◌^◌}
use fragmenta.Base.Map.{nat_eq, lookup}
use fragmenta.Store.Metadata.{Manager, Entries, flush, new_metadata_manager}
use fragmenta.Store.Metadata.Persistence.{IsManager, new_metadata_manager-flush}
use fragmenta.Store.Metadata.{delete_metadata}
use fragmenta.Store.Metadata.Protected.{
  Changes, no_change, next, delete_one, save, Changes-IsPresent,
}
use fragmenta.Store.Metadata.Query.{Query, Condition, contains, query_metadata}
use fragmenta.Store.Metadata.Query.Pages.{query_metadata-page, found, page}
use fragmenta.Store.Metadata.Batch.{Batch, setting, deleting, appending, batch_operation, Clock}
use fragmenta.Store.Metadata.Batch.Effects.{batch_operation-effects}
use fragmenta.Store.Metadata.Batch.Effects.{effects, IsPresent}
use fragmenta.Base.{◌+◌, ◌≡◌, refl, arith, [], ◌∷◌, ok}
use fragmenta.Base.Int.{pos}
use fragmenta.Store.Header.{initialize_header}

abbrev two_entries : Entries
two_entries = (2, 1 ∷ 2 ∷ 3 ∷ []) ∷ (4, 7 ∷ 8 ∷ 9 ∷ []) ∷ []

abbrev changed_manager : Manager
changed_manager = record {
  metadata = two_entries;
  is_dirty = true;
  last_modified = pos 5;
  header = new_header;
  file = some old_file;
}

changed_manager-IsManager : IsManager changed_manager
unfolding initialize_header
changed_manager-IsManager = record {
  entries = ((omega arith, omega arith), ((omega arith, omega arith), tt));
  distinct = ((omega arith, tt), (tt, tt));
  count = omega arith;
  offset = omega arith;
}

new_metadata_manager-flush_example :
    ((flush (pos 6) changed_manager).0 ≡ none)
    × ((flush (pos 6) changed_manager).1.is_dirty ≡ false)
    × ((new_metadata_manager
          (pos 7)
          (flush (pos 6) changed_manager).1.header
          (flush (pos 6) changed_manager).1.file).metadata
        ≡ two_entries)
new_metadata_manager-flush_example =
    new_metadata_manager-flush (pos 6) (pos 7) changed_manager old_file changed_manager-IsManager
      refl refl

abbrev holds_eight : Condition
holds_eight = record { tag = 4; operator = contains; value = 8 ∷ [] }

abbrev eight_query : Query
eight_query = record { conditions = holds_eight ∷ []; limit = 1; offset = 0 }

query_metadata-page_example :
    query_metadata 3 eight_query changed_manager
    ≡ ok (record {
      entries = page 0 1 (found eight_query two_entries);
      total_count = length (found eight_query two_entries);
      return_count = length (page 0 1 (found eight_query two_entries));
      has_more =
          ltb
            (0 + length (page 0 1 (found eight_query two_entries)))
            (length (found eight_query two_entries));
      query_time = 3 % 2 ^ 32;
    })
query_metadata-page_example =
    query_metadata-page 3 eight_query holds_eight [] changed_manager refl (omega arith)
      (omega arith)

abbrev three_changes : Batch
three_changes = record {
  operations =
      record { operation = deleting; tag = 2; value = [] }
      ∷ record { operation = appending; tag = 4; value = 10 ∷ [] }
      ∷ record { operation = setting; tag = 6; value = 65 ∷ [] }
      ∷ [];
  atomic_exec = false;
  rollback_on_error = false;
}

abbrev ticks : Clock
ticks n = (pos n, pos (n + 1))

batch_operation-effects_example :
    (batch_operation ticks (pos 9) three_changes changed_manager).1.metadata
    ≡ effects three_changes.operations two_entries
batch_operation-effects_example =
    batch_operation-effects ticks (pos 9) three_changes changed_manager refl

create_time_set : IsPresent 2 two_entries
unfolding lookup
create_time_set = λ h. cc

-- The creation time cannot be deleted, and stays when the manager is saved.
saved_manager :
    Changes changed_manager (flush (pos 4) (delete_metadata (pos 3) 2 changed_manager).1).1
saved_manager =
    next (next (no_change changed_manager) (delete_one (pos 3) 2 changed_manager))
      (save (pos 4) (delete_metadata (pos 3) 2 changed_manager).1)

Changes-IsPresent_example :
    IsPresent 2 (flush (pos 4) (delete_metadata (pos 3) 2 changed_manager).1).1.metadata
Changes-IsPresent_example = Changes-IsPresent 2 refl create_time_set saved_manager
