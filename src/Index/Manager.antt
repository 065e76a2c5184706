-- ===== src/Index/Manager.antt =====
-- index/index.go (IndexManagerImpl): ids by their tags, and their prefix trees. Times are numbers,
-- each reading of the clock is an argument. What os and json make of the index file is an argument of
-- LoadIndex; SaveIndex is left out, and so is the map that is nil after a file that lacks one.
pub mod Batch
pub mod Prefixes
pub mod Query
mod Runs
use fragmenta.Base.{
  codes, ℕ, zero, suc, ◌+◌, List, [], ◌∷◌, ◌++◌, Option, none, some, ◌==◌, if◌then◌else◌,
}
use fragmenta.Base.{Bool, true, false, not, ◌&&◌, any, length, Result, ok, err, ◌≡◌}
use fragmenta.Base.Int.{ℤ, pos}
use fragmenta.Base.Map.{nat_eq, insert, delete, lookup}
use fragmenta.Index.Tree.{
  Node, empty_root, add_to_prefix_tree, take_out, collect, walk, decimal, increment, decrement,
}

abbrev pub Indices : Type 0
Indices = List (ℕ × List ℕ)

-- IndexConfig, with the two fields that the manager reads.
pub record IndexConfig : Type 0 where
  pub index_path : List ℕ
  pub auto_save : Bool

-- IndexManagerImpl.
pub record IndexManager : Type 0 where
  pub config : IndexConfig
  pub metadata_indices : Indices
  pub content_indices : List (List ℕ × List ℕ)
  pub last_update_time : ℕ
  pub is_updating : Bool
  pub progress : ℕ
  pub indexed_count : ℤ
  pub last_error : List ℕ
  pub prefix_trees : List (ℕ × Node)

-- `panicked` stands for a run-time panic.
pub data IndexError : Type 0 where
  index_not_found length_mismatch no_conditions bad_prefix bad_range unsupported panicked :
      IndexError

-- NewIndexManager, up to the index file; `none` is a nil configuration.
unfoldable pub new_index_manager : ℕ → Option IndexConfig → IndexManager
new_index_manager now config = record {
  config = elim config [ none ↦ record { index_path = []; auto_save = true } | some c ↦ c ];
  metadata_indices = [];
  content_indices = [];
  last_update_time = now;
  is_updating = false;
  progress = 0;
  indexed_count = pos 0;
  last_error = [];
  prefix_trees = [];
}

-- The fields of an index file, decoded.
pub record IndexFile : Type 0 where
  pub metadata_indices : Indices
  pub content_indices : List (List ℕ × List ℕ)
  pub last_update_time : ℕ

-- The loop of LoadIndex over the lists.
unfoldable pub count_ids : Indices → ℕ
count_ids [] = 0
count_ids ((tag, ids) ∷ m) = length ids + count_ids m

-- LoadIndex, for what opening, reading and decoding the file yield. The prefix trees stay.
unfoldable pub load_index :
    {E : Type 0} → Result E IndexFile → IndexManager → Option E × IndexManager
load_index (err e) im = (some e, im)
load_index (ok file) im = (
  none,
  record im {
    metadata_indices = file.metadata_indices;
    content_indices = file.content_indices;
    last_update_time = file.last_update_time;
    indexed_count = pos (count_ids file.metadata_indices);
  },
)

abbrev loaded_or_failed : {E : Type 0} → Option E × IndexManager → Result E IndexManager
loaded_or_failed (none, im) = ok im
loaded_or_failed (some e, im) = err e

-- NewIndexManager. `file_at` has nothing at a path where os.Stat fails.
unfoldable pub open_index_manager :
    {E : Type 0}
    → (List ℕ → Option (Result E IndexFile))
    → ℕ
    → Option IndexConfig
    → Result E IndexManager
open_index_manager file_at now config =
    let im = new_index_manager now config in
    elim im.config.index_path [
      | [] ↦ ok im
      | c ∷ path ↦ elim (file_at (c ∷ path)) [
        | none ↦ ok im
        | some file ↦ loaded_or_failed (load_index file im)
      ]
    ]

-- The slice at a tag; that of a missing tag is empty.
abbrev pub ids_of : ℕ → Indices → List ℕ
ids_of tag m = elim (lookup tag m) [ none ↦ [] | some ids ↦ ids ]

-- The tree that updatePrefixTree and GetPrefixTree find or make.
abbrev pub tree_of : ℕ → List (ℕ × Node) → Node
tree_of tag trees = elim (lookup tag trees) [ none ↦ empty_root | some tree ↦ tree ]

pub data UpdateOperation : Type 0 where
  op_add op_remove op_update : UpdateOperation

-- updatePrefixTree. Its error is always nil.
unfoldable pub update_prefix_tree : ℕ → ℕ → UpdateOperation → List (ℕ × Node) → List (ℕ × Node)
update_prefix_tree tag id op_add trees =
    insert tag (add_to_prefix_tree (decimal id) id (tree_of tag trees)) trees
update_prefix_tree tag id op_remove trees =
    insert tag (take_out (decimal id) id (tree_of tag trees)) trees
update_prefix_tree tag id op_update trees = insert tag (tree_of tag trees) trees

-- AddIndex and AsyncAddIndex. Their error is always nil, as are those of the operations below that
-- return the state alone.
unfoldable pub add_index : ℕ → ℕ → ℕ → IndexManager → IndexManager
add_index now tag id im = record im {
  metadata_indices = insert tag (ids_of tag im.metadata_indices ++ (id ∷ [])) im.metadata_indices;
  indexed_count = increment im.indexed_count;
  prefix_trees = update_prefix_tree tag id op_add im.prefix_trees;
  last_update_time = now;
}

-- The loop over the ids of a tag: what is left, if it finds the id.
unfoldable pub ids_without : ℕ → List ℕ → Option (List ℕ)
ids_without id [] = none
ids_without id (x ∷ xs) =
    let found = ids_without id xs in
    if x == id then some xs else elim found [ none ↦ none | some ys ↦ some (x ∷ ys) ]

abbrev pub store_without : ℕ → Option (List ℕ) → IndexManager → IndexManager
store_without tag none im = im
store_without tag (some ids) im = record im {
  metadata_indices = insert tag ids im.metadata_indices;
  indexed_count = decrement im.indexed_count;
}

-- RemoveIndex and AsyncRemoveIndex.
unfoldable pub remove_index : ℕ → ℕ → ℕ → IndexManager → IndexManager
remove_index now tag id im =
    store_without tag (ids_without id (ids_of tag im.metadata_indices)) (record im {
      prefix_trees = update_prefix_tree tag id op_remove im.prefix_trees;
      last_update_time = now;
    })

-- FindByKey, FindByTag and FindByTagInShard.
unfoldable pub find_by_key : ℕ → IndexManager → Result IndexError (List ℕ)
find_by_key tag im = elim (lookup tag im.metadata_indices) [
  | none ↦ err index_not_found
  | some ids ↦ ok ids
]

-- FindByPattern: a copy of all indices, whatever the pattern.
unfoldable pub find_by_pattern : List ℕ → IndexManager → Indices
find_by_pattern pattern im = im.metadata_indices

-- IndexMetadata: `clock` has a reading for each tag.
unfoldable pub index_metadata : (ℕ → ℕ) → ℕ → List ℕ → IndexManager → IndexManager
index_metadata clock id [] im = im
index_metadata clock id (tag ∷ tags) im =
    index_metadata clock id tags (add_index (clock (length tags)) tag id im)

-- GetPrefixTree, and the state after it.
unfoldable pub get_prefix_tree : ℕ → IndexManager → Node × IndexManager
get_prefix_tree tag im =
    let tree = tree_of tag im.prefix_trees in
    (tree, record im { prefix_trees = insert tag tree im.prefix_trees })

-- FindByPrefix. Its error is always nil; the prefix is the list of its runes.
unfoldable pub find_by_prefix : ℕ → List ℕ → IndexManager → List ℕ
find_by_prefix tag prefix im = elim (lookup tag im.prefix_trees) [
  | none ↦ []
  | some tree ↦ elim (walk prefix tree) [ none ↦ [] | some n ↦ collect n ]
]

-- GetStatus, with the fields of IndexStatus that it fills, and GetIndexMetadata.
pub record IndexStatus : Type 0 where
  pub total_items : ℕ
  pub indexed_items : ℤ
  pub last_update_time : ℕ
  pub is_updating : Bool
  pub progress : ℕ
  pub error : List ℕ

unfoldable pub get_status : IndexManager → IndexStatus
get_status im = record {
  total_items = length im.metadata_indices + length im.content_indices;
  indexed_items = im.indexed_count;
  last_update_time = im.last_update_time;
  is_updating = im.is_updating;
  progress = im.progress;
  error = im.last_error;
}

-- GetIndexMetadata, with the fields of IndexMetadata that it fills.
pub record IndexMetadata : Type 0 where
  pub version : List ℕ
  pub modified_at : ℕ
  pub item_count : ℤ
  pub shard_count : ℕ

unfoldable pub get_index_metadata : IndexManager → IndexMetadata
get_index_metadata im = record {
  version = codes "1.0";
  modified_at = im.last_update_time;
  item_count = im.indexed_count;
  shard_count = 1;
}
