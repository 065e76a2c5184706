-- ===== src/Index/Manager/Batch.antt =====
-- index/index.go: UpdateIndices, BatchAddIndices and BatchRemoveIndices of the index manager.
pub mod Accounting
pub mod Totals
use fragmenta.Base.{ℕ, zero, suc, ◌+◌, List, [], ◌∷◌, ◌++◌, Option, none, some, ◌==◌, if◌then◌else◌}
use fragmenta.Base.{Bool, true, false, not, ◌&&◌, any, length}
use fragmenta.Base.Int.{ℤ}
use fragmenta.Base.Map.{nat_eq, insert, delete, lookup}
use fragmenta.Index.Tree.{increment, decrement}
use fragmenta.Index.Manager.{
  Indices, IndexConfig, IndexManager, IndexError, length_mismatch, ids_of,
}

-- How an operation ends: a call that waits for ever is `blocked`. UpdateIndices and the batches hold
-- the lock when they call SaveIndex, which asks for it again.
pub data Reply : Type 0 where
  done blocked : Reply
  failed : IndexError → Reply

abbrev saves : IndexConfig → Bool
saves c = c.auto_save && elim c.index_path [ [] ↦ false | ◌∷◌ x xs ↦ true ]

abbrev reply : IndexConfig → Reply
reply c = if saves c then blocked else done

-- UpdateIndices.
unfoldable pub update_indices : ℕ → IndexManager → Reply × IndexManager
update_indices now im = (
  reply im.config,
  record im { is_updating = false; progress = 100; last_error = []; last_update_time = now },
)

-- A round of BatchAddIndices.
abbrev pub add_absent : ℕ → ℕ → IndexManager → IndexManager
add_absent tag id im =
    let ids = ids_of tag im.metadata_indices in
    if any (λ x. x == id) ids
    then record im { metadata_indices = insert tag ids im.metadata_indices }
    else record im {
      metadata_indices = insert tag (ids ++ (id ∷ [])) im.metadata_indices;
      indexed_count = increment im.indexed_count;
    }

unfoldable pub add_all : List ℕ → List ℕ → IndexManager → IndexManager
add_all [] ids im = im
add_all (tag ∷ tags) [] im = im
add_all (tag ∷ tags) (id ∷ ids) im = add_all tags ids (add_absent tag id im)

-- BatchAddIndices. The prefix trees stay as they are.
unfoldable pub batch_add_indices : ℕ → List ℕ → List ℕ → IndexManager → Reply × IndexManager
batch_add_indices now tags ids im =
    if length tags == length ids
    then (reply im.config, record (add_all tags ids im) { last_update_time = now })
    else (failed length_mismatch, im)

-- The removeMap of BatchRemoveIndices: the ids to remove by their tags.
unfoldable pub removals : List ℕ → List ℕ → Indices → Indices
removals [] ids m = m
removals (tag ∷ tags) [] m = m
removals (tag ∷ tags) (id ∷ ids) m = removals tags ids (insert tag (id ∷ ids_of tag m) m)

unfoldable pub keep_others : List ℕ → List ℕ → List ℕ
keep_others gone [] = []
keep_others gone (x ∷ xs) =
    let rest = keep_others gone xs in if any (λ y. y == x) gone then rest else x ∷ rest

unfoldable pub lower : List ℕ → List ℕ → ℤ → ℤ
lower gone [] n = n
lower gone (x ∷ xs) n = lower gone xs (if any (λ y. y == x) gone then decrement n else n)

-- A tag whose ids are all removed goes with them.
abbrev pub store_rest : ℕ → List ℕ → Indices → Indices
store_rest tag [] m = delete tag m
store_rest tag (x ∷ xs) m = insert tag (x ∷ xs) m

abbrev pub forget : ℕ → List ℕ → Option (List ℕ) → IndexManager → IndexManager
forget tag gone none im = im
forget tag gone (some ids) im = record im {
  metadata_indices = store_rest tag (keep_others gone ids) im.metadata_indices;
  indexed_count = lower gone ids im.indexed_count;
}

unfoldable pub remove_all : Indices → IndexManager → IndexManager
remove_all [] im = im
remove_all ((tag, gone) ∷ m) im = remove_all m (forget tag gone (lookup tag im.metadata_indices) im)

-- BatchRemoveIndices. The prefix trees stay as they are.
unfoldable pub batch_remove_indices : ℕ → List ℕ → List ℕ → IndexManager → Reply × IndexManager
batch_remove_indices now tags ids im =
    if length tags == length ids
    then (reply im.config, record (remove_all (removals tags ids []) im) { last_update_time = now })
    else (failed length_mismatch, im)
