-- ===== src/Index/Manager/Runs.antt =====
-- Runs of the index manager on small data.
use fragmenta.Base.{
  ℕ, ◌≡◌, refl, List, [], ◌∷◌, none, ok, occurrences, all, if◌then◌else◌, codes, has_prefix, arith,
  leb, ◌&&◌,
}
use fragmenta.Base.Int.{pos}
use fragmenta.Base.Map.Keys.{IsKeyed}
use fragmenta.Base.Map.{nat_eq, lookup, insert, delete}
use fragmenta.Index.Tree.{
  decimal, collect, walk, add_to_prefix_tree, take_out, place, find_child, put_child, entered,
}
use fragmenta.Index.Manager.{
  IndexManager, new_index_manager, add_index, remove_index, find_by_prefix, find_by_key, get_status,
  load_index, ids_without, update_prefix_tree,
}
use fragmenta.Index.Manager.Prefixes.{
  Reached, created, added, removed, found, find_by_prefix-find_by_key,
}
use fragmenta.Index.Manager.Batch.{
  batch_add_indices, batch_remove_indices, add_all, remove_all, removals, keep_others,
}
use fragmenta.Index.Manager.Batch.Accounting.{get_status-IsCounted}
use fragmenta.Index.Manager.Batch.Accounting
use fragmenta.Index.Manager.Batch.Totals.{total}
use fragmenta.Index.Manager.Query.{find_by_range, find_compound, or_not_found}
use fragmenta.Index.Manager.Query.Sorting.{IsSorted}
use fragmenta.Index.Manager.Query.Range.{find_by_range_lem}
use fragmenta.Index.Manager.Query.Compound.{starts, lies, meets, conditions, find_compound-meets}

-- The ids 71, 7 and 12 under the tag 7, and 71 under the tag 8; 12 is removed again.
abbrev kept_ids : IndexManager
kept_ids = remove_index 5 7 12 (
    add_index 4 8 71
      (add_index 3 7 12 (add_index 2 7 7 (add_index 1 7 71 (new_index_manager 0 none)))))

abbrev kept_ids-Reached : Reached kept_ids
kept_ids-Reached =
    removed 5 7 12 (added 4 8 71 (added 3 7 12 (added 2 7 7 (added 1 7 71 (created 0 none)))))

abbrev batched : IndexManager
batched =
    (batch_remove_indices 7 (7 ∷ 8 ∷ []) (7 ∷ 71 ∷ [])
      (batch_add_indices 6 (7 ∷ 9 ∷ []) (71 ∷ 3 ∷ []) kept_ids).1).1

-- 12 is gone, and the prefix 7 finds the others.
find_by_prefix_test : find_by_prefix 7 (codes "7") kept_ids ≡ 7 ∷ 71 ∷ []
unfolding find_by_prefix remove_index add_index new_index_manager lookup insert walk ids_without
    update_prefix_tree decimal add_to_prefix_tree take_out collect place find_child put_child
    entered
find_by_prefix_test = refl

find_by_prefix-find_by_key_example : occurrences 71 (find_by_prefix 7 (codes "7") kept_ids) ≡ (
    if has_prefix (codes "7") (decimal 71)
    then occurrences 71 (found (find_by_key 7 kept_ids))
    else 0)
find_by_prefix-find_by_key_example =
    find_by_prefix-find_by_key 7 71 (codes "7") kept_ids kept_ids-Reached

find_by_range_lem_example :
    (find_by_range 7 5 80 kept_ids ≡ or_not_found (found (find_by_range 7 5 80 kept_ids)))
    × IsSorted (found (find_by_range 7 5 80 kept_ids))
    × ((x : ℕ)
        → occurrences x (found (find_by_range 7 5 80 kept_ids))
          ≡ (if leb 5 x && leb x 80 then occurrences x (found (find_by_key 7 kept_ids)) else 0))
find_by_range_lem_example = find_by_range_lem 7 5 80 kept_ids (omega arith)

find_compound-meets_example :
    (ids : List ℕ) × (find_compound
        (conditions ((7, starts (codes "7")) ∷ (8, lies 70 80) ∷ []))
        kept_ids
      ≡ ok ids)
    × ((x : ℕ)
        → leb 1 (occurrences x ids)
          ≡ all (meets kept_ids x) ((7, starts (codes "7")) ∷ (8, lies 70 80) ∷ []))
find_compound-meets_example =
    find_compound-meets kept_ids (7, starts (codes "7")) ((8, lies 70 80) ∷ []) kept_ids-Reached
      (tt, (omega arith, tt))

get_status-IsCounted_example :
    ((get_status batched).indexed_items ≡ pos (total batched.metadata_indices))
    × IsKeyed batched.metadata_indices
get_status-IsCounted_example = get_status-IsCounted batched (
    Accounting.batch_removed 7 (7 ∷ 8 ∷ []) (7 ∷ 71 ∷ []) (
      Accounting.batch_added 6 (7 ∷ 9 ∷ []) (71 ∷ 3 ∷ []) (
        Accounting.removed 5 7 12 (
          Accounting.added 4 8 71 (
            Accounting.added 3 7 12
              (Accounting.added 2 7 7 (Accounting.added 1 7 71 (Accounting.created 0 none))))))))

-- Each tag keeps what the batches leave it, 8 is gone with its only id, and 9 is new.
batched_test :
    (find_by_key 7 batched ≡ ok (71 ∷ []))
    × (lookup 8 batched.metadata_indices ≡ none)
    × (find_by_key 9 batched ≡ ok (3 ∷ []))
unfolding find_by_key batch_remove_indices batch_add_indices remove_index add_index
    new_index_manager lookup insert delete ids_without update_prefix_tree add_all remove_all
    removals keep_others
batched_test = (refl, refl, refl)

abbrev loaded : IndexManager
loaded =
    (load_index {E = ℕ}
      (ok (record {
        metadata_indices = (7, 71 ∷ []) ∷ [];
        content_indices = [];
        last_update_time = 1;
      }))
      (new_index_manager 0 none)).1

-- A loaded id is found by its key, and not by its prefix.
loaded_by_key : find_by_key 7 loaded ≡ ok (71 ∷ [])
unfolding load_index new_index_manager find_by_key lookup
loaded_by_key = refl

loaded_by_prefix : find_by_prefix 7 (codes "7") loaded ≡ []
unfolding load_index new_index_manager find_by_prefix lookup
loaded_by_prefix = refl
