-- ===== src/Index/Manager/Prefixes.antt =====
-- The prefix trees of the index manager hold what its lists hold.
use fragmenta.Base.{ℕ, ◌+◌, ◌≡◌, refl, ap, ◌∙◌, arith, List, [], ◌∷◌, ◌++◌, Option, none, some}
use fragmenta.Base.{
  ◌==◌, leb, if◌then◌else◌, Bool, true, false, ◌&&◌, occurrences, occurrences-append, has_prefix,
}
use fragmenta.Base.{Option-cases, Bool-cases, inl, inr, Result, ok, err}
use fragmenta.Base.Map.{nat_eq, insert, lookup, lookup-insert}
use fragmenta.Index.Tree.{Node, empty_root, add_to_prefix_tree, take_out, decimal}
use fragmenta.Index.Tree.Counts.{fits, once, count_at, measure}
use fragmenta.Index.Tree.Ids.{
  count_at-add, count_at-remove, fits_self, fits-has_prefix, count_at-empty_root,
}
use fragmenta.Index.Manager.{
  IndexManager, IndexConfig, Indices, IndexError, new_index_manager, add_index, remove_index,
}
use fragmenta.Index.Manager.{
  get_prefix_tree, find_by_prefix, find_by_key, ids_of, tree_of, ids_without, store_without,
  update_prefix_tree,
}
use fragmenta.Index.Manager.Batch.{update_indices}

-- The loop of RemoveIndex takes out one occurrence of the id.
abbrev kept : List ℕ → Option (List ℕ) → List ℕ
kept ids none = ids
kept ids (some ys) = ys

count-ids_without :
    (x id : ℕ) (ids : List ℕ)
    → occurrences x (kept ids (ids_without id ids)) + once (id == x && leb 1 (occurrences id ids))
      ≡ occurrences x ids
unfolding ids_without
count-ids_without x id [] = ground arith
count-ids_without x id (y ∷ ids) = ground (arith, count-ids_without x id ids)

-- The calls that keep lists and trees together: all that change one of them but the batches and
-- LoadIndex, which change the lists alone.
pub data Reached : IndexManager → Type 0 where
  created : (now : ℕ) (config : Option IndexConfig) → Reached (new_index_manager now config)
  added : (now tag id : ℕ) {im : IndexManager} → Reached im → Reached (add_index now tag id im)
  removed : (now tag id : ℕ) {im : IndexManager} → Reached im → Reached (remove_index now tag id im)
  read : (tag : ℕ) {im : IndexManager} → Reached im → Reached (get_prefix_tree tag im).1
  updated : (now : ℕ) {im : IndexManager} → Reached im → Reached (update_indices now im).1

-- Below each path, and at its end, a tag's tree counts the ids of the tag's list that it fits.
abbrev pub InStep : IndexManager → Type 0
InStep im =
    (tag x : ℕ) (exact : Bool) (p : List ℕ)
    → count_at exact x p (tree_of tag im.prefix_trees)
      ≡ (if fits exact p (decimal x) then occurrences x (ids_of tag im.metadata_indices) else 0)

tree_of-insert :
    (tag tag' : ℕ) (n : Node) (trees : List (ℕ × Node))
    → tree_of tag' (insert tag n trees) ≡ (if tag == tag' then n else tree_of tag' trees)
tree_of-insert tag tag' n trees =
    ap (λ o. elim o [ none ↦ empty_root | some t ↦ t ]) (lookup-insert tag tag' n trees)
    ∙ elim (Bool-cases (tag == tag')) [ inl e ↦ rw e refl | inr e ↦ rw e refl ]

ids_of-insert :
    (tag tag' : ℕ) (ids : List ℕ) (m : List (ℕ × List ℕ))
    → ids_of tag' (insert tag ids m) ≡ (if tag == tag' then ids else ids_of tag' m)
ids_of-insert tag tag' ids m =
    ap (λ o. elim o [ none ↦ [] | some t ↦ t ]) (lookup-insert tag tag' ids m)
    ∙ elim (Bool-cases (tag == tag')) [ inl e ↦ rw e refl | inr e ↦ rw e refl ]

count_at-if :
    (exact : Bool) (x : ℕ) (p : List ℕ) (b : Bool) (n n' : Node)
    → count_at exact x p (if b then n else n')
      ≡ (if b then count_at exact x p n else count_at exact x p n')
count_at-if exact x p true n n' = refl
count_at-if exact x p false n n' = refl

count-if :
    (x : ℕ) (b : Bool) (ids ids' : List ℕ)
    → occurrences x (if b then ids else ids')
      ≡ (if b then occurrences x ids else occurrences x ids')
count-if x true ids ids' = refl
count-if x false ids ids' = refl

-- A change of one tag's list and tree that counts alike.
InStep-change :
    (tag : ℕ) (n : Node) (ids : List ℕ) (m : Indices) (im : IndexManager)
    → ((tag' : ℕ) → ids_of tag' m ≡ (if tag == tag' then ids else ids_of tag' im.metadata_indices))
    → ((x : ℕ) (exact : Bool) (p : List ℕ)
        → count_at exact x p n ≡ (if fits exact p (decimal x) then occurrences x ids else 0))
    → InStep im
    → (tag' x : ℕ) (exact : Bool) (p : List ℕ)
    → count_at exact x p (tree_of tag' (insert tag n im.prefix_trees))
      ≡ (if fits exact p (decimal x) then occurrences x (ids_of tag' m) else 0)
InStep-change tag n ids m im lists here in_step tag' x exact p =
    ap (count_at exact x p) (tree_of-insert tag tag' n im.prefix_trees)
    ∙ count_at-if exact x p (tag == tag') n (tree_of tag' im.prefix_trees)
    ∙ ground (
      arith,
      here x exact p,
      in_step tag' x exact p,
      ap (occurrences x) (lists tag'),
      count-if x (tag == tag') ids (ids_of tag' im.metadata_indices),
    )

-- The tag's list stays.
ids_of-same :
    (tag : ℕ) (m : Indices) (tag' : ℕ)
    → ids_of tag' m ≡ (if tag == tag' then ids_of tag m else ids_of tag' m)
ids_of-same tag m tag' = elim (Bool-cases (tag == tag')) [
  | inl e ↦ ground (arith, e, ap (λ t. ids_of t m) (same e))
  | inr e ↦ rw e refl
]
  where
    same : (tag == tag') ≡ true → tag ≡ tag'
    same e = ground arith

InStep-new : (now : ℕ) (config : Option IndexConfig) → InStep (new_index_manager now config)
unfolding new_index_manager
InStep-new now config tag x exact p = unfold lookup in ground (arith, count_at-empty_root exact x p)

InStep-add_index :
    (now tag id : ℕ) (im : IndexManager) → InStep im → InStep (add_index now tag id im)
unfolding add_index update_prefix_tree
InStep-add_index now tag id im in_step =
    let ids = ids_of tag im.metadata_indices in
    let tree = tree_of tag im.prefix_trees in
    InStep-change tag (add_to_prefix_tree (decimal id) id tree) (ids ++ (id ∷ []))
      (insert tag (ids ++ (id ∷ [])) im.metadata_indices) im
      (λ tag'. ids_of-insert tag tag' (ids ++ (id ∷ [])) im.metadata_indices)
      (λ x exact p. ground (
        arith,
        in_step tag x exact p,
        count_at-add exact x p id tree,
        occurrences-append x ids (id ∷ []),
      ))
      in_step

InStep-remove_index :
    (now tag id : ℕ) (im : IndexManager) → InStep im → InStep (remove_index now tag id im)
unfolding remove_index update_prefix_tree
InStep-remove_index now tag id im in_step = after (ids_without id ids) refl
  where
    ids : List ℕ
    ids = ids_of tag im.metadata_indices

    tree : Node
    tree = tree_of tag im.prefix_trees

    gone :
        (o : Option (List ℕ))
        → ids_without id ids ≡ o
        → (x : ℕ) (exact : Bool) (p : List ℕ)
        → count_at exact x p (take_out (decimal id) id tree)
          ≡ (if fits exact p (decimal x) then occurrences x (kept ids o) else 0)
    gone o e x exact p = ground (
      arith,
      count-ids_without x id ids,
      ap (λ o'. occurrences x (kept ids o')) e,
      in_step tag x exact p,
      in_step tag id true (decimal id),
      fits_self (decimal id),
      count_at-remove exact x p id tree,
    )

    after :
        (o : Option (List ℕ))
        → ids_without id ids ≡ o
        → InStep (
            store_without tag o (record im {
              prefix_trees = insert tag (take_out (decimal id) id tree) im.prefix_trees;
              last_update_time = now;
            }))
    after none e =
        InStep-change tag (take_out (decimal id) id tree) ids im.metadata_indices im
          (ids_of-same tag im.metadata_indices) (gone none e) in_step
    after (some ys) e =
        InStep-change tag (take_out (decimal id) id tree) ys (insert tag ys im.metadata_indices) im
          (λ tag'. ids_of-insert tag tag' ys im.metadata_indices) (gone (some ys) e) in_step

InStep-get_prefix_tree :
    (tag : ℕ) (im : IndexManager) → InStep im → InStep (get_prefix_tree tag im).1
unfolding get_prefix_tree
InStep-get_prefix_tree tag im in_step =
    InStep-change tag (tree_of tag im.prefix_trees) (ids_of tag im.metadata_indices)
      im.metadata_indices im (ids_of-same tag im.metadata_indices) (in_step tag) in_step

pub Reached-InStep : {im : IndexManager} → Reached im → InStep im
unfolding update_indices
Reached-InStep (created now config) = InStep-new now config
Reached-InStep (added now tag id {im} r) = InStep-add_index now tag id im (Reached-InStep r)
Reached-InStep (removed now tag id {im} r) = InStep-remove_index now tag id im (Reached-InStep r)
Reached-InStep (read tag {im} r) = InStep-get_prefix_tree tag im (Reached-InStep r)
Reached-InStep (updated now {im} r) = Reached-InStep r

-- The ids that a search returns, none where it finds none.
abbrev pub found : Result IndexError (List ℕ) → List ℕ
found (ok ids) = ids
found (err e) = []

pub found-find_by_key :
    (tag : ℕ) (im : IndexManager) → found (find_by_key tag im) ≡ ids_of tag im.metadata_indices
unfolding find_by_key
found-find_by_key tag im = ground arith

count-find_by_prefix :
    (tag x : ℕ) (prefix : List ℕ) (im : IndexManager)
    → occurrences x (find_by_prefix tag prefix im)
      ≡ count_at false x prefix (tree_of tag im.prefix_trees)
unfolding find_by_prefix measure
count-find_by_prefix tag x prefix im = elim (Option-cases (lookup tag im.prefix_trees)) [
  | inl e ↦ ground (arith, e, count_at-empty_root false x prefix)
  | inr (tree, e) ↦ ground (arith, e)
]

-- In every state that AddIndex, RemoveIndex, GetPrefixTree and UpdateIndices lead to from a new
-- manager that has loaded no index file, FindByPrefix returns an id as often as FindByKey does for
-- the tag if the prefix starts the id's decimal, and never if not.
pub find_by_prefix-find_by_key :
    (tag x : ℕ) (prefix : List ℕ) (im : IndexManager)
    → Reached im
    → occurrences x (find_by_prefix tag prefix im)
      ≡ (if has_prefix prefix (decimal x) then occurrences x (found (find_by_key tag im)) else 0)
find_by_prefix-find_by_key tag x prefix im r = ground (
  arith,
  fits-has_prefix prefix (decimal x),
  Reached-InStep r tag x false prefix,
  count-find_by_prefix tag x prefix im,
  ap (occurrences x) (found-find_by_key tag im),
)
