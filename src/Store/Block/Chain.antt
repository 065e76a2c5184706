-- ===== src/Store/Block/Chain.antt =====
-- The chain of blocks: what DeleteBlock and LinkBlocks do to the links.
use fragmenta.Base.{ℕ, ◌≡◌, ◌≢◌, arith, none, some, Option-cases, inl, inr, ◌==◌}
use fragmenta.Base.{if◌then◌else◌}
use fragmenta.Base.Map.{nat_eq, delete, lookup, lookup-insert, lookup-delete}
use fragmenta.Store.Block.{BlockHeader, BlockMap, BlockManager, delete_block, adjust, unlink}
use fragmenta.Store.Block.{set_next, set_previous}
use mathlib.Core.Option

lookup-adjust :
    (f : BlockHeader → BlockHeader) (id key : ℕ) (m : BlockMap)
    → lookup key (adjust f id m) ≡ (if id == key then Option.map f (lookup key m) else lookup key m)
unfolding adjust
lookup-adjust f id key m = elim (Option-cases (lookup id m)) [
  | inl e ↦ ground arith
  | inr (h, e) ↦ ground (arith, lookup-insert id key (f h) m)
]

-- A block between two others: `h` is its header, `before` and `after` are its neighbours' headers.
pub record IsBetween (m : BlockMap) (id : ℕ) (h before after : BlockHeader) : Type 0 where
  pub here : lookup id m ≡ some h
  pub left : lookup h.previous_block m ≡ some before
  pub right : lookup h.next_block m ≡ some after
  pub some_left : h.previous_block ≢ 0
  pub some_right : h.next_block ≢ 0
  pub not_left : h.previous_block ≢ id
  pub not_right : h.next_block ≢ id
  pub differ : h.previous_block ≢ h.next_block

module _ (m : BlockMap) (id : ℕ) (h before after : BlockHeader)
    (is : IsBetween m id h before after) where
  unlinked : BlockMap
  unlinked =
      adjust (set_previous h.previous_block) h.next_block
        (adjust (set_next h.next_block) h.previous_block m)

  unlink_lem : unlink h m ≡ unlinked
  unfolding unlink unlinked
  unlink_lem = ground (arith, is.some_left, is.some_right)

  lookup-unlink :
      (key : ℕ)
      → lookup key (delete id (unlink h m)) ≡ (
          if id == key
          then none
          else if h.next_block == key
          then Option.map (set_previous h.previous_block) (lookup key m)
          else if h.previous_block == key
          then Option.map (set_next h.next_block) (lookup key m)
          else lookup key m)
  unfolding unlinked
  lookup-unlink key = rw unlink_lem (
      ground (
        arith,
        lookup-delete id key unlinked,
        lookup-adjust (set_previous h.previous_block) h.next_block key
            (adjust (set_next h.next_block) h.previous_block m),
        lookup-adjust (set_next h.next_block) h.previous_block key m,
      ))

  removed : BlockMap
  removed = delete id (unlink h m)

  removed-left : lookup h.previous_block removed ≡ some (set_next h.next_block before)
  unfolding removed
  removed-left = ground (arith, lookup-unlink h.previous_block, is.not_left, is.differ, is.left)

  removed-right : lookup h.next_block removed ≡ some (set_previous h.previous_block after)
  unfolding removed
  removed-right = ground (arith, lookup-unlink h.next_block, is.not_right, is.right)

  removed-here : lookup id removed ≡ none
  unfolding removed
  removed-here = ground (arith, lookup-unlink id)

  removed_others :
      (key : ℕ)
      → key ≢ id
      → key ≢ h.previous_block
      → key ≢ h.next_block
      → lookup key removed ≡ lookup key m
  unfolding removed
  removed_others key a b c = ground (arith, lookup-unlink key)

delete_block-map :
    (bm : BlockManager) (id : ℕ) (h : BlockHeader)
    → lookup id bm.block_map ≡ some h
    → (delete_block id bm).1.block_map ≡ delete id (unlink h bm.block_map)
unfolding delete_block
delete_block-map bm id h e = ground arith

-- DeleteBlock takes a block out of its chain: of three blocks in a row the outer two become
-- neighbours, the middle one is gone, and every other block keeps its header.
pub delete_block-links :
    (bm : BlockManager) (id : ℕ) (h before after : BlockHeader)
    → IsBetween bm.block_map id h before after
    → (lookup h.previous_block (delete_block id bm).1.block_map
        ≡ some (set_next h.next_block before))
      × (lookup h.next_block (delete_block id bm).1.block_map
          ≡ some (set_previous h.previous_block after))
      × (lookup id (delete_block id bm).1.block_map ≡ none)
      × ((key : ℕ)
          → key ≢ id
          → key ≢ h.previous_block
          → key ≢ h.next_block
          → lookup key (delete_block id bm).1.block_map ≡ lookup key bm.block_map)
unfolding removed
delete_block-links bm id h before after is =
    let m : BlockMap = bm.block_map in
    rw (delete_block-map bm id h is.here) (
      removed-left m id h before after is,
      removed-right m id h before after is,
      removed-here m id h before after is,
      removed_others m id h before after is,
    )
