-- ===== src/Store/Block/Ids.antt =====
-- The ids of blocks: WriteBlock gives none that a block in the manager's map has.
pub mod Maps
use fragmenta.Base.{Result, ok, err, Result-cases}
use fragmenta.Base.Bytes.{eof, unexpected_eof}
use fragmenta.Store.Block.Reading.{
  SearchError, reading, not_found, negative_position, checksum_mismatch, out_of_fuel, finish_read,
  read_block, read_block_data, header_of,
}
use fragmenta.Store.Block.Ids.Maps.{
  IsFree, Once, IsConsistent, adjust-absent, unlink-absent, All-IsFree-map, All-IsFree-insert,
  All-IsFree-differ, All-snoc, Once-snoc,
}
use fragmenta.Base.{ℕ, ◌+◌, ◌≤◌, ◌<◌, ◌≡◌, ◌≢◌, ◌^◌, refl, sym, ap, ◌∙◌, arith, List, [], ◌∷◌, ◌++◌}
use fragmenta.Base.{All, Option, none, some, Option-cases, Bool-cases, inl, inr, ◌==◌, leb, not}
use fragmenta.Base.Int.{ℤ}
use fragmenta.Base.Map.{nat_eq, insert, delete, lookup, lookup-insert, lookup-delete}
use fragmenta.Store.Disk.{File}
use fragmenta.Store.Header.{Header}
use fragmenta.Store.Block.{
  BlockHeader, BlockOptions, BlockMap, BlockManager, new_block_manager, next_id,
}
use fragmenta.Store.Block.{take_id, write_block, store_block, new_block, delete_block, link_blocks}
use fragmenta.Base.{◌||◌}
use fragmenta.Store.Block.{
  chosen, is_missing, optimize_blocks, adjust, unlink, block_position, set_next, set_previous,
}
use native.Mathlib.Nat.{mod-eq_of_lt}

IsSound : BlockManager → Type 0
IsSound bm = IsConsistent bm.next_block_id bm.block_map bm.free_list

-- What getNextBlockID does to a sound manager: the id is not in use and no longer free.
record IsTaken (bm : BlockManager) (id : ℕ) (after : BlockManager) : Type 0 where
  positive : 0 < id
  small : id ≤ after.next_block_id
  unused : lookup id bm.block_map ≡ none
  others : All (λ other. id ≢ other) after.free_list
  sound : IsConsistent after.next_block_id bm.block_map after.free_list

taken :
    (bm : BlockManager) (free : List ℕ)
    → bm.free_list ≡ free
    → IsConsistent bm.next_block_id bm.block_map free
    → bm.next_block_id + 1 < 2 ^ 32
    → IsTaken bm (next_id bm.free_list bm.next_block_id) (take_id bm)
unfolding take_id next_id
taken bm [] e c h =
    rw (e, mod-eq_of_lt h)
      (record {
        positive = omega arith;
        small = omega arith;
        unused = absent;
        others = tt;
        sound = record {
          used = λ id p. ((c.used id p).0, omega (arith, (c.used id p).1));
          free = tt;
          once = tt;
        };
      })
  where
    absent : lookup (bm.next_block_id + 1) bm.block_map ≡ none
    absent = elim (Option-cases (lookup (bm.next_block_id + 1) bm.block_map)) [
      | inl q ↦ q
      | inr (b, q) ↦ absurd (omega (arith, (c.used (bm.next_block_id + 1) (λ z. cc)).1))
    ]
taken bm (id ∷ ids) e c h = rw e (record {
  positive = c.free.0.0;
  small = c.free.0.1;
  unused = c.free.0.2;
  others = c.once.0;
  sound = record { used = c.used; free = c.free.1; once = c.once.1 };
})

stored :
    (bm after : BlockManager) (id : ℕ) (b : BlockHeader)
    → IsTaken bm id after
    → IsConsistent after.next_block_id (insert id b bm.block_map) after.free_list
stored bm after id b t = record {
  used = used;
  free =
      All-IsFree-insert after.next_block_id bm.block_map id b after.free_list t.others t.sound.free;
  once = t.sound.once;
}
  where
    used :
        (key : ℕ)
        → lookup key (insert id b bm.block_map) ≢ none
        → (0 < key) × (key ≤ after.next_block_id)
    used key p = elim (Bool-cases (id == key)) [
      | inl e ↦ (ground (arith, t.positive), ground (arith, t.small))
      | inr e ↦ t.sound.used key (λ z. p (ground (arith, lookup-insert id key b bm.block_map)))
    ]

delete_block-IsSound : (id : ℕ) (bm : BlockManager) → IsSound bm → IsSound (delete_block id bm).1
unfolding IsSound delete_block
delete_block-IsSound id bm c = elim (Option-cases (lookup id bm.block_map)) [
  | inl e ↦ rw (IsSound, delete_block, e) c
  | inr (h, e) ↦ rw (IsSound, delete_block, e) (removed h e)
]
  where
    n : ℕ
    n = bm.next_block_id

    m : BlockMap
    m = bm.block_map

    gone :
        (h : BlockHeader) (key : ℕ)
        → lookup key m ≡ none
        → lookup key (delete id (unlink h m)) ≡ none
    gone h key q = ground (arith, lookup-delete id key (unlink h m), unlink-absent h key m q)

    removed :
        (h : BlockHeader)
        → lookup id m ≡ some h
        → IsConsistent n (delete id (unlink h m)) (bm.free_list ++ (id ∷ []))
    removed h e = record {
      used = λ key p. c.used key (λ q. p (gone h key q));
      free =
          All-snoc (IsFree n (delete id (unlink h m))) bm.free_list id
            (All-IsFree-map n m (delete id (unlink h m)) bm.free_list (gone h) c.free)
            (
              (c.used id (λ z. cc)).0,
              (c.used id (λ z. cc)).1,
              ground (arith, lookup-delete id id (unlink h m)),
            );
      once =
          Once-snoc bm.free_list id c.once (All-IsFree-differ n m id bm.free_list (λ z. cc) c.free);
    }

link_blocks-IsSound :
    (source target : ℕ) (bm : BlockManager) → IsSound bm → IsSound (link_blocks source target bm).1
unfolding IsSound link_blocks
link_blocks-IsSound source target bm c =
    elim (Bool-cases (is_missing source bm.block_map || is_missing target bm.block_map)) [
      | inl e ↦ rw (IsSound, link_blocks, e) c
      | inr e ↦
          rw (IsSound, link_blocks, e)
            (record {
              used = λ key p. c.used key (λ q. p (kept key q));
              free = All-IsFree-map bm.next_block_id bm.block_map _ bm.free_list kept c.free;
              once = c.once;
            })
    ]
  where
    kept :
        (key : ℕ)
        → lookup key bm.block_map ≡ none
        → lookup key
            (adjust (set_previous source) target (adjust (set_next target) source bm.block_map))
          ≡ none
    kept key q =
        adjust-absent (set_previous source) target key _
          (adjust-absent (set_next target) source key bm.block_map q)

take_id_map :
    (bm : BlockManager) (free : List ℕ)
    → bm.free_list ≡ free
    → (take_id bm).block_map ≡ bm.block_map
unfolding take_id
take_id_map bm [] e = rw e refl
take_id_map bm (id ∷ ids) e = rw e refl

store_block-IsSound :
    (b : BlockHeader) (bytes : List ℕ) (bm : BlockManager)
    → IsSound bm
    → IsConsistent bm.next_block_id (insert b.block_id b bm.block_map) bm.free_list
    → IsSound (store_block b bytes bm).1
unfolding IsSound store_block
store_block-IsSound b bytes bm c c' = elim (Bool-cases (leb (2 ^ 63) (block_position bm.header))) [
  | inl e ↦ rw (IsSound, store_block, e) c
  | inr e ↦ rw (IsSound, store_block, e) c'
]

write_block-IsSound :
    (md5 : List ℕ → List ℕ) (now : ℤ) (bytes : List ℕ) (options : Option BlockOptions)
    (bm : BlockManager)
    → bm.next_block_id + 1 < 2 ^ 32
    → IsSound bm
    → IsSound (write_block md5 now bytes options bm).1
unfolding IsSound write_block new_block
write_block-IsSound md5 now bytes options bm h c =
    elim (Bool-cases (not ((chosen options).append_to_block_id == 0))) [
      | inl e ↦ rw (IsSound, write_block, e) sound
      | inr e ↦
          rw (IsSound, write_block, e) (store_block-IsSound _ bytes (take_id bm) sound with_block)
    ]
  where
    id : ℕ
    id = next_id bm.free_list bm.next_block_id

    t : IsTaken bm id (take_id bm)
    t = taken bm bm.free_list refl c h

    same : (take_id bm).block_map ≡ bm.block_map
    same = take_id_map bm bm.free_list refl

    sound : IsSound (take_id bm)
    sound = rw (IsSound, same) t.sound

    with_block :
        IsConsistent
          (take_id bm).next_block_id
          (insert id (new_block md5 now id bytes (chosen options)) (take_id bm).block_map)
          (take_id bm).free_list
    with_block = rw same (stored bm (take_id bm) id _ t)

-- Nothing but the cache is different.
abbrev pub SameBlocks : BlockManager → BlockManager → Type 0
SameBlocks bm bm' =
    (bm'.next_block_id ≡ bm.next_block_id)
    × (bm'.block_map ≡ bm.block_map)
    × (bm'.free_list ≡ bm.free_list)

finish_read-SameBlocks :
    (md5 : List ℕ → List ℕ) (id : ℕ) (h : BlockHeader) (r : Result SearchError (List ℕ))
    (bm : BlockManager)
    → SameBlocks bm (finish_read md5 id h r bm).1
unfolding finish_read
finish_read-SameBlocks md5 id h (ok bytes) bm = (ground arith, ground arith, ground arith)
finish_read-SameBlocks md5 id h (err (reading eof)) bm = (ground arith, ground arith, ground arith)
finish_read-SameBlocks md5 id h (err (reading unexpected_eof)) bm = (refl, refl, refl)
finish_read-SameBlocks md5 id h (err not_found) bm = (refl, refl, refl)
finish_read-SameBlocks md5 id h (err negative_position) bm = (refl, refl, refl)
finish_read-SameBlocks md5 id h (err checksum_mismatch) bm = (refl, refl, refl)
finish_read-SameBlocks md5 id h (err out_of_fuel) bm = (refl, refl, refl)

pub read_block-SameBlocks :
    (md5 : List ℕ → List ℕ) (id : ℕ) (bm : BlockManager) → SameBlocks bm (read_block md5 id bm).1
unfolding read_block
read_block-SameBlocks md5 id bm = elim (Option-cases (lookup id bm.block_cache)) [
  | inr (bytes, e) ↦ rw (SameBlocks, read_block, e) (refl, refl, refl)
  | inl e ↦ elim (Result-cases (header_of id bm)) [
    | inl (h, q) ↦
        rw (SameBlocks, read_block, e, q)
          (finish_read-SameBlocks md5 id h (read_block_data h bm) bm)
    | inr (x, q) ↦ rw (SameBlocks, read_block, e, q) (refl, refl, refl)
  ]
]

read_block-IsSound :
    (md5 : List ℕ → List ℕ) (id : ℕ) (bm : BlockManager)
    → IsSound bm
    → IsSound (read_block md5 id bm).1
unfolding IsSound
read_block-IsSound md5 id bm c = let (n, m, f) = read_block-SameBlocks md5 id bm in rw (n, m, f) c

-- A call that changes the block manager; a write, as long as ids are left.
pub data Change : BlockManager → BlockManager → Type 0 where
  written :
      (md5 : List ℕ → List ℕ) (now : ℤ) (bytes : List ℕ) (options : Option BlockOptions)
      (bm : BlockManager)
      → bm.next_block_id + 1 < 2 ^ 32
      → Change bm (write_block md5 now bytes options bm).1
  deleted : (id : ℕ) (bm : BlockManager) → Change bm (delete_block id bm).1
  linked : (source target : ℕ) (bm : BlockManager) → Change bm (link_blocks source target bm).1
  optimized : (bm : BlockManager) → Change bm (optimize_blocks bm)
  read : (md5 : List ℕ → List ℕ) (id : ℕ) (bm : BlockManager) → Change bm (read_block md5 id bm).1

-- The states that these calls lead to from a new manager.
pub data Reached : BlockManager → Type 0 where
  start : (file : File) (header : Header) → Reached (new_block_manager file header)
  next : {bm bm' : BlockManager} → Reached bm → Change bm bm' → Reached bm'

new_block_manager-IsSound :
    (file : File) (header : Header) → IsSound (new_block_manager file header)
unfolding IsSound new_block_manager lookup
new_block_manager-IsSound file header = record {
  used = λ id p. absurd (p refl);
  free = tt;
  once = tt;
}

optimize_blocks-IsSound : (bm : BlockManager) → IsSound bm → IsSound (optimize_blocks bm)
unfolding IsSound optimize_blocks
optimize_blocks-IsSound bm c = record { used = c.used; free = tt; once = tt }

Reached-IsSound : {bm : BlockManager} → Reached bm → IsSound bm
Reached-IsSound (start file header) = new_block_manager-IsSound file header
Reached-IsSound (next r (written md5 now bytes options bm h)) =
    write_block-IsSound md5 now bytes options bm h (Reached-IsSound r)
Reached-IsSound (next r (deleted id bm)) = delete_block-IsSound id bm (Reached-IsSound r)
Reached-IsSound (next r (linked source target bm)) =
    link_blocks-IsSound source target bm (Reached-IsSound r)
Reached-IsSound (next r (optimized bm)) = optimize_blocks-IsSound bm (Reached-IsSound r)
Reached-IsSound (next r (read md5 id bm)) = read_block-IsSound md5 id bm (Reached-IsSound r)

-- In every state that writes, reads, deletions, links and optimisations lead to from a new manager,
-- the id that the next write gives its block is not 0 and is not the id of a block in the manager's
-- map, as long as ids are left. The map holds the blocks that this manager has written and not
-- deleted; blocks that an existing file held before are not in it, and their ids are not avoided.
pub next_id-absent :
    {bm : BlockManager}
    → Reached bm
    → bm.next_block_id + 1 < 2 ^ 32
    → (0 < next_id bm.free_list bm.next_block_id)
      × (lookup (next_id bm.free_list bm.next_block_id) bm.block_map ≡ none)
unfolding IsSound
next_id-absent {bm} r h =
    let t = taken bm bm.free_list refl (Reached-IsSound r) h in (t.positive, t.unused)
