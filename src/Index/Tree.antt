-- ===== src/Index/Tree.antt =====
-- index/index.go (addToPrefixTree, removeFromPrefixTree, collectAllIDs) and index/types.go
-- (PrefixNode): the tree of ids by their decimal digits. Strings are lists of code points; a
-- node's children are a list by their character, whose order stands for that of a `range` loop.
pub mod Counts
mod Digits
pub mod Ids
pub mod Removal
use fragmenta.Base.{
  ℕ, zero, suc, ◌+◌, ◌-◌, ◌/◌, ◌%◌, List, [], ◌∷◌, ◌++◌, Option, none, some, ◌==◌, ltb,
}
use fragmenta.Base.{if◌then◌else◌, Bool, true, false, ◌&&◌}
use fragmenta.Base.Int.{ℤ, pos, negsuc}

mutual
  -- PrefixNode: its character, none at the root; its count, its children and its ids.
  pub data Node : Type 0 where
    node : List ℕ → ℤ → Children → List ℕ → Node

  pub data Children : Type 0 where
    leaf : Children
    child : ℕ → Node → Children → Children

abbrev pub increment : ℤ → ℤ
increment (pos n) = pos (suc n)
increment (negsuc zero) = pos 0
increment (negsuc (suc n)) = negsuc n

abbrev pub decrement : ℤ → ℤ
decrement (pos zero) = negsuc 0
decrement (pos (suc n)) = pos n
decrement (negsuc n) = negsuc (suc n)

-- children[c], children[c] = n and delete(children, c).
unfoldable pub find_child : ℕ → Children → Option Node
find_child c leaf = none
find_child c (child k n rest) = if k == c then some n else find_child c rest

unfoldable pub put_child : ℕ → Node → Children → Children
put_child c m leaf = child c m leaf
put_child c m (child k n rest) = if k == c then child k m rest else child k n (put_child c m rest)

unfoldable pub delete_child : ℕ → Children → Children
delete_child c leaf = leaf
delete_child c (child k n rest) =
    let others = delete_child c rest in if k == c then others else child k n others

-- The digits of fmt.Sprintf("%d"), in front of what follows them; `fuel` above the number is enough.
unfoldable pub digits : ℕ → ℕ → List ℕ → List ℕ
digits zero n rest = rest
digits (suc fuel) n rest =
    let longer = digits fuel (n / 10) ((48 + n % 10) ∷ rest) in
    if ltb n 10 then (48 + n) ∷ rest else longer

unfoldable pub decimal : ℕ → List ℕ
unfolding digits
decimal id = digits (suc id) id []

abbrev pub empty_root : Node
empty_root = node [] (pos 0) leaf []

-- A child that addToPrefixTree steps into: a new one, or one that counts one id more.
unfoldable pub entered : ℕ → Option Node → Node
entered c none = node (c ∷ []) (pos 1) leaf []
entered c (some (node p k children ids)) = node p (increment k) children ids

-- The loop of addToPrefixTree, from a node on, for the characters left.
unfoldable pub place : List ℕ → ℕ → Node → Node
place [] id (node p k children ids) = node p k children (ids ++ (id ∷ []))
place (c ∷ cs) id (node p k children ids) =
    node p k (put_child c (place cs id (entered c (find_child c children))) children) ids

-- addToPrefixTree: for no characters the loop does nothing.
unfoldable pub add_to_prefix_tree : List ℕ → ℕ → Node → Node
add_to_prefix_tree [] id n = n
add_to_prefix_tree (c ∷ cs) id n = place (c ∷ cs) id n

-- append(ids[:j], ids[j+1:]...) for the first j with ids[j] == id, if there is one.
unfoldable pub remove_id : ℕ → List ℕ → List ℕ
remove_id id [] = []
remove_id id (x ∷ xs) = if x == id then xs else x ∷ remove_id id xs

-- The end of a round of removeFromPrefixTree. It deletes the character among the children of the
-- node itself, of which it has just found none, and not among its parent's.
unfoldable pub tidy : ℕ → Node → Node
tidy c (node p (pos zero) leaf []) = node p (pos zero) (delete_child c leaf) []
tidy c n = n

-- A round of removeFromPrefixTree at the child it steps into; `rest` are the characters after it.
unfoldable pub left : ℕ → List ℕ → ℕ → Node → Node
left c [] id (node p k children ids) = tidy c (node p (decrement k) children (remove_id id ids))
left c (d ∷ ds) id (node p k children ids) = tidy c (node p (decrement k) children ids)

-- removeFromPrefixTree, from a node on, for the characters left.
unfoldable pub take_out : List ℕ → ℕ → Node → Node
take_out [] id n = n
take_out (c ∷ cs) id (node p k children ids) = elim (find_child c children) [
  | none ↦ node p k children ids
  | some n ↦ node p k (put_child c (take_out cs id (left c cs id n)) children) ids
]

unfoldable mutual
  -- collectAllIDs.
  pub collect : Node → List ℕ
  collect (node p k children ids) = ids ++ collect_children children

  pub collect_children : Children → List ℕ
  collect_children leaf = []
  collect_children (child c n rest) = collect n ++ collect_children rest

-- The walk of FindByPrefix.
unfoldable pub walk : List ℕ → Node → Option Node
walk [] n = some n
walk (c ∷ cs) (node p k children ids) = elim (find_child c children) [
  | none ↦ none
  | some n ↦ walk cs n
]
