-- ===== src/Index/Manager/Batch/Accounting.antt =====
-- The count of the index manager against the lists that it keeps.
use fragmenta.Base.{ℕ, ◌≡◌, refl, ap, arith, List, [], ◌∷◌, Option, none, some}
use fragmenta.Base.{◌==◌, any, length, Bool-cases, inl, inr, ok}
use fragmenta.Base.Int.{pos}
use fragmenta.Base.Map.Keys.{IsKeyed}
use fragmenta.Base.Map.{nat_eq, lookup}
use fragmenta.Index.Manager.{
  Indices, IndexConfig, IndexManager, ids_of, ids_without, store_without, new_index_manager,
  IndexFile, count_ids, load_index,
}
use fragmenta.Index.Manager.{
  update_prefix_tree, op_remove, add_index, remove_index, get_prefix_tree, get_status,
}
use fragmenta.Index.Manager.Batch.{
  update_indices, batch_add_indices, batch_remove_indices, add_all, add_absent,
}
use fragmenta.Index.Manager.Batch.{remove_all, removals, forget}
use fragmenta.Index.Manager.Batch.Totals.{
  total, Counted-grow, Counted-same, Counted-shrink, Counted-store_rest,
}

-- The count is that of the lists, and no tag stands twice.
abbrev pub IsCounted : IndexManager → Type 0
IsCounted im = (im.indexed_count ≡ pos (total im.metadata_indices)) × IsKeyed im.metadata_indices

-- All calls that change the manager, with the batches and with LoadIndex, whose file has no tag twice, as
-- it is decoded to a map.
pub data Called : IndexManager → Type 0 where
  created : (now : ℕ) (config : Option IndexConfig) → Called (new_index_manager now config)
  added : (now tag id : ℕ) {im : IndexManager} → Called im → Called (add_index now tag id im)
  removed : (now tag id : ℕ) {im : IndexManager} → Called im → Called (remove_index now tag id im)
  batch_added :
      (now : ℕ) (tags ids : List ℕ) {im : IndexManager}
      → Called im
      → Called (batch_add_indices now tags ids im).1
  batch_removed :
      (now : ℕ) (tags ids : List ℕ) {im : IndexManager}
      → Called im
      → Called (batch_remove_indices now tags ids im).1
  read : (tag : ℕ) {im : IndexManager} → Called im → Called (get_prefix_tree tag im).1
  loaded :
      (file : IndexFile) {im : IndexManager}
      → IsKeyed file.metadata_indices
      → Called im
      → Called (load_index {E = Unit {0}} (ok file) im).1
  updated : (now : ℕ) {im : IndexManager} → Called im → Called (update_indices now im).1

IsCounted-add_all :
    (tags ids : List ℕ) (im : IndexManager) → IsCounted im → IsCounted (add_all tags ids im)
unfolding add_all
IsCounted-add_all [] ids im c = c
IsCounted-add_all (tag ∷ tags) [] im c = c
IsCounted-add_all (tag ∷ tags) (id ∷ ids) im c =
    IsCounted-add_all tags ids (add_absent tag id im) round
  where
    round : IsCounted (add_absent tag id im)
    round = elim (Bool-cases (any (λ x. x == id) (ids_of tag im.metadata_indices))) [
      | inl e ↦ rw e (Counted-same im.indexed_count im.metadata_indices tag c)
      | inr e ↦ rw e (Counted-grow im.indexed_count im.metadata_indices tag id c)
    ]

IsCounted-remove_all :
    (m : Indices) (im : IndexManager) → IsCounted im → IsCounted (remove_all m im)
unfolding remove_all
IsCounted-remove_all [] im c = c
IsCounted-remove_all ((tag, gone) ∷ m) im c =
    IsCounted-remove_all m (forget tag gone (lookup tag im.metadata_indices) im)
      (round (lookup tag im.metadata_indices) refl)
  where
    round :
        (o : Option (List ℕ))
        → lookup tag im.metadata_indices ≡ o
        → IsCounted (forget tag gone o im)
    round none e = c
    round (some ids) e =
        Counted-store_rest im.indexed_count im.metadata_indices tag gone ids (ground (arith, e)) c

IsCounted-remove_index :
    (now tag id : ℕ) (im : IndexManager) → IsCounted im → IsCounted (remove_index now tag id im)
unfolding remove_index
IsCounted-remove_index now tag id im c =
    after (ids_without id (ids_of tag im.metadata_indices)) refl
  where
    after :
        (o : Option (List ℕ))
        → ids_without id (ids_of tag im.metadata_indices) ≡ o
        → IsCounted (
            store_without tag o (record im {
              prefix_trees = update_prefix_tree tag id op_remove im.prefix_trees;
              last_update_time = now;
            }))
    after none e = c
    after (some ys) e = Counted-shrink im.indexed_count im.metadata_indices tag id ys e c

count_ids-total : (m : Indices) → count_ids m ≡ total m
unfolding count_ids
count_ids-total [] = refl
count_ids-total ((tag, ids) ∷ m) = omega (arith, count_ids-total m)

Called-IsCounted : {im : IndexManager} → Called im → IsCounted im
unfolding new_index_manager add_index batch_add_indices batch_remove_indices get_prefix_tree
    update_indices load_index
Called-IsCounted (created now config) = (refl, tt)
Called-IsCounted (added now tag id {im} c) =
    Counted-grow im.indexed_count im.metadata_indices tag id (Called-IsCounted c)
Called-IsCounted (removed now tag id {im} c) =
    IsCounted-remove_index now tag id im (Called-IsCounted c)
Called-IsCounted (batch_added now tags ids {im} c) = elim (Bool-cases (length tags == length ids)) [
  | inl e ↦ rw e (IsCounted-add_all tags ids im (Called-IsCounted c))
  | inr e ↦ rw e (Called-IsCounted c)
]
Called-IsCounted (batch_removed now tags ids {im} c) =
    elim (Bool-cases (length tags == length ids)) [
      | inl e ↦ rw e (IsCounted-remove_all (removals tags ids []) im (Called-IsCounted c))
      | inr e ↦ rw e (Called-IsCounted c)
    ]
Called-IsCounted (read tag {im} c) = Called-IsCounted c
Called-IsCounted (loaded file keyed c) = (ap pos (count_ids-total file.metadata_indices), keyed)
Called-IsCounted (updated now {im} c) = Called-IsCounted c

-- In every state that the calls, batches and LoadIndex included, lead to from a new manager, the
-- number of indexed items that GetStatus reports is that of all ids in the lists of all tags, and
-- no tag stands twice. It is for files in which no tag stands twice.
pub get_status-IsCounted :
    (im : IndexManager)
    → Called im
    → ((get_status im).indexed_items ≡ pos (total im.metadata_indices))
      × IsKeyed im.metadata_indices
unfolding get_status
get_status-IsCounted im called = Called-IsCounted called
