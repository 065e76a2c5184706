-- ===== src/Store/Block/Reading/Written.antt =====
-- What was written is read, whatever else happened since.
use fragmenta.Base.{
  ℕ, ◌+◌, ◌<◌, ◌≡◌, ◌≢◌, ◌^◌, refl, sym, ap, ◌∙◌, arith, List, [], ◌∷◌, Option, none, some,
}
use fragmenta.Base.{
  Bool-cases, Option-cases, Result-cases, inl, inr, leb, not, ◌==◌, ◌||◌, ok, err, Result,
}
use fragmenta.Base.Int.{ℤ}
use fragmenta.Base.Bytes.{eof, unexpected_eof}
use fragmenta.Base.Map.{nat_eq, lookup, lookup-insert, lookup-delete}
use fragmenta.Store.Block.{
  BlockHeader, BlockOptions, BlockMap, BlockManager, next_id, take_id, write_block,
}
use fragmenta.Store.Block.{
  store_block, new_block, chosen, delete_block, link_blocks, optimize_blocks,
}
use fragmenta.Store.Block.{adjust, unlink, set_next, set_previous, is_missing, block_position}
use fragmenta.Store.Block.Reading.{
  available, read_block, finish_read, header_of, read_block_data, SearchError,
}
use fragmenta.Store.Block.Reading.{
  reading, not_found, negative_position, checksum_mismatch, out_of_fuel,
}
use fragmenta.Store.Block.Ids.{Reached, Change, next, written, deleted, linked, optimized, read}
use fragmenta.Store.Block.Ids.{next_id-absent, read_block-SameBlocks}

-- The bytes are in the cache and the block is in use.
abbrev IsHeld : ℕ → List ℕ → BlockManager → Type 0
IsHeld id bytes bm = (lookup id bm.block_cache ≡ some bytes) × (lookup id bm.block_map ≢ none)

take_id-cache :
    (bm : BlockManager) (free : List ℕ)
    → bm.free_list ≡ free
    → ((take_id bm).block_cache ≡ bm.block_cache) × ((take_id bm).block_map ≡ bm.block_map)
unfolding take_id
take_id-cache bm [] e = rw e (refl, refl)
take_id-cache bm (id ∷ ids) e = rw e (refl, refl)

store_block-IsHeld :
    (b : BlockHeader) (more : List ℕ) (bm : BlockManager) (id : ℕ) (bytes : List ℕ)
    → b.block_id ≢ id
    → IsHeld id bytes bm
    → IsHeld id bytes (store_block b more bm).1
unfolding store_block
store_block-IsHeld b more bm id bytes other (c, m) =
    elim (Bool-cases (leb (2 ^ 63) (block_position bm.header))) [
      | inl e ↦ rw (IsHeld, store_block, e) (c, m)
      | inr e ↦
          rw (IsHeld, store_block, e)
            (
              ground (arith, lookup-insert b.block_id id more bm.block_cache),
              λ z. m (ground (arith, lookup-insert b.block_id id b bm.block_map)),
            )
    ]

write_block-IsHeld :
    (md5 : List ℕ → List ℕ) (now : ℤ) (more : List ℕ) (options : Option BlockOptions)
    (bm : BlockManager) (id : ℕ) (bytes : List ℕ)
    → next_id bm.free_list bm.next_block_id ≢ id
    → IsHeld id bytes bm
    → IsHeld id bytes (write_block md5 now more options bm).1
unfolding write_block new_block
write_block-IsHeld md5 now more options bm id bytes other h =
    elim (Bool-cases (not ((chosen options).append_to_block_id == 0))) [
      | inl e ↦ rw (IsHeld, write_block, e) kept
      | inr e ↦
          rw (IsHeld, write_block, e) (store_block-IsHeld _ more (take_id bm) id bytes other kept)
    ]
  where
    kept : IsHeld id bytes (take_id bm)
    kept = let (c, m) = take_id-cache bm bm.free_list refl in rw (IsHeld, c, m) h

adjust-present :
    (f : BlockHeader → BlockHeader) (id key : ℕ) (m : BlockMap)
    → lookup key m ≢ none
    → lookup key (adjust f id m) ≢ none
unfolding adjust
adjust-present f id key m h = elim (Option-cases (lookup id m)) [
  | inl e ↦ ground arith
  | inr (old, e) ↦ ground (arith, lookup-insert id key (f old) m)
]

unlink-present :
    (h : BlockHeader) (key : ℕ) (m : BlockMap)
    → lookup key m ≢ none
    → lookup key (unlink h m) ≢ none
unfolding unlink
unlink-present h key m p = ground (
  arith,
  adjust-present (set_next h.next_block) h.previous_block key m,
  adjust-present (set_previous h.previous_block) h.next_block key m,
  adjust-present (set_previous h.previous_block) h.next_block key
      (adjust (set_next h.next_block) h.previous_block m),
)

delete_block-IsHeld :
    (gone : ℕ) (bm : BlockManager) (id : ℕ) (bytes : List ℕ)
    → gone ≢ id
    → IsHeld id bytes bm
    → IsHeld id bytes (delete_block gone bm).1
unfolding delete_block
delete_block-IsHeld gone bm id bytes other (c, m) = elim (Option-cases (lookup gone bm.block_map)) [
  | inl e ↦ rw (IsHeld, delete_block, e) (c, m)
  | inr (h, e) ↦
      rw (IsHeld, delete_block, e)
        (
          ground (arith, lookup-delete gone id bm.block_cache),
          λ z.
              unlink-present h id bm.block_map m
                (ground (arith, lookup-delete gone id (unlink h bm.block_map))),
        )
]

link_blocks-IsHeld :
    (source target : ℕ) (bm : BlockManager) (id : ℕ) (bytes : List ℕ)
    → IsHeld id bytes bm
    → IsHeld id bytes (link_blocks source target bm).1
unfolding link_blocks
link_blocks-IsHeld source target bm id bytes (c, m) =
    elim (Bool-cases (is_missing source bm.block_map || is_missing target bm.block_map)) [
      | inl e ↦ rw (IsHeld, link_blocks, e) (c, m)
      | inr e ↦
          rw (IsHeld, link_blocks, e)
            (
              c,
              adjust-present (set_previous source) target id _
                  (adjust-present (set_next target) source id bm.block_map m),
            )
    ]

-- A read of another block may fill its place in the cache; that of a held block finds it.
finish_read-cache :
    (md5 : List ℕ → List ℕ) (seen : ℕ) (h : BlockHeader) (r : Result SearchError (List ℕ))
    (bm : BlockManager) (id : ℕ)
    → seen ≢ id
    → lookup id (finish_read md5 seen h r bm).1.block_cache ≡ lookup id bm.block_cache
unfolding finish_read
finish_read-cache md5 seen h (ok more) bm id other =
    ground (arith, lookup-insert seen id more bm.block_cache)
finish_read-cache md5 seen h (err (reading eof)) bm id other =
    ground (arith, lookup-insert seen id (available seen bm) bm.block_cache)
finish_read-cache md5 seen h (err (reading unexpected_eof)) bm id other = refl
finish_read-cache md5 seen h (err not_found) bm id other = refl
finish_read-cache md5 seen h (err negative_position) bm id other = refl
finish_read-cache md5 seen h (err checksum_mismatch) bm id other = refl
finish_read-cache md5 seen h (err out_of_fuel) bm id other = refl

read_block-held :
    (md5 : List ℕ → List ℕ) (bm : BlockManager) (id : ℕ) (bytes : List ℕ)
    → lookup id bm.block_cache ≡ some bytes
    → read_block md5 id bm ≡ (ok bytes, bm)
unfolding read_block
read_block-held md5 bm id bytes e = rw (read_block, e) refl

read_block-cache :
    (md5 : List ℕ → List ℕ) (seen : ℕ) (bm : BlockManager) (id : ℕ)
    → seen ≢ id
    → lookup id (read_block md5 seen bm).1.block_cache ≡ lookup id bm.block_cache
unfolding read_block
read_block-cache md5 seen bm id other = elim (Option-cases (lookup seen bm.block_cache)) [
  | inr (old, e) ↦ rw (read_block, e) refl
  | inl e ↦ elim (Result-cases (header_of seen bm)) [
    | inl (h, q) ↦
        rw (read_block, e, q) (finish_read-cache md5 seen h (read_block_data h bm) bm id other)
    | inr (x, q) ↦ rw (read_block, e, q) refl
  ]
]

read_block-IsHeld :
    (md5 : List ℕ → List ℕ) (seen : ℕ) (bm : BlockManager) (id : ℕ) (bytes : List ℕ)
    → IsHeld id bytes bm
    → IsHeld id bytes (read_block md5 seen bm).1
read_block-IsHeld md5 seen bm id bytes (c, m) =
    let (_, same, _) = read_block-SameBlocks md5 seen bm in
    (
      elim (Bool-cases (seen == id)) [
        | inl e ↦
            let e' : seen ≡ id = ground arith in rw e' (rw (read_block-held md5 bm id bytes c) c)
        | inr e ↦ read_block-cache md5 seen bm id (ground arith) ∙ c
      ],
      rw same m,
    )

-- A call that does not delete the block.
abbrev pub Spares : ℕ → {bm bm' : BlockManager} → Change bm bm' → Type 0
Spares id (written md5 now more options bm h) = Unit
Spares id (deleted gone bm) = gone ≢ id
Spares id (linked source target bm) = Unit
Spares id (optimized bm) = Unit
Spares id (read md5 seen bm) = Unit

-- Calls in a row that do not delete the block.
pub data Since (id : ℕ) (bm : BlockManager) : BlockManager → Type 0 where
  here : Since id bm bm
  more :
      {bm' bm'' : BlockManager}
      → Since id bm bm'
      → (c : Change bm' bm'') → Spares id c
      → Since id bm bm''

Change-IsHeld :
    (id : ℕ) (bytes : List ℕ) {bm bm' : BlockManager}
    → Reached bm
    → IsHeld id bytes bm
    → (c : Change bm bm') → Spares id c
    → IsHeld id bytes bm'
Change-IsHeld id bytes r h (written md5 now new options bm left) s =
    write_block-IsHeld md5 now new options bm id bytes
      (λ e. h.1 (ap (λ k. lookup k bm.block_map) (sym e) ∙ (next_id-absent r left).1)) h
Change-IsHeld id bytes r h (deleted gone bm) s = delete_block-IsHeld gone bm id bytes s h
Change-IsHeld id bytes r h (linked source target bm) s =
    link_blocks-IsHeld source target bm id bytes h
Change-IsHeld id bytes r h (optimized bm) s = unfold optimize_blocks in h
Change-IsHeld id bytes r h (read md5 seen bm) s = read_block-IsHeld md5 seen bm id bytes h

Since-IsHeld :
    (id : ℕ) (bytes : List ℕ) {bm bm' : BlockManager}
    → Reached bm
    → IsHeld id bytes bm
    → Since id bm bm'
    → Reached bm' × IsHeld id bytes bm'
Since-IsHeld id bytes r h here = (r, h)
Since-IsHeld id bytes r h (more s c spares) =
    let (r', h') = Since-IsHeld id bytes r h s in (next r' c, Change-IsHeld id bytes r' h' c spares)

stored-IsHeld :
    (b : BlockHeader) (bytes : List ℕ) (bm : BlockManager)
    → (store_block b bytes bm).0 ≡ none
    → IsHeld b.block_id bytes (store_block b bytes bm).1
unfolding store_block
stored-IsHeld b bytes bm done = elim (Bool-cases (leb (2 ^ 63) (block_position bm.header))) [
  | inl e ↦ cc (rw (store_block, e) at done)
  | inr e ↦
      rw (IsHeld, store_block, e)
        (
          ground (arith, lookup-insert b.block_id b.block_id bytes bm.block_cache),
          ground (arith, lookup-insert b.block_id b.block_id b bm.block_map),
        )
]

new-IsHeld :
    (md5 : List ℕ → List ℕ) (now : ℤ) (bytes : List ℕ) (options : Option BlockOptions)
    (bm : BlockManager)
    → (write_block md5 now bytes options bm).0 ≡ none
    → IsHeld (next_id bm.free_list bm.next_block_id) bytes (write_block md5 now bytes options bm).1
unfolding write_block new_block
new-IsHeld md5 now bytes options bm done =
    elim (Bool-cases (not ((chosen options).append_to_block_id == 0))) [
      | inl e ↦ cc (rw (write_block, e) at done)
      | inr e ↦
          rw (IsHeld, write_block, e)
            (stored-IsHeld
              (new_block md5 now (next_id bm.free_list bm.next_block_id) bytes (chosen options))
              bytes (take_id bm) (rw (write_block, e) at done))
    ]

-- ReadBlock returns the bytes that WriteBlock stored, and changes nothing, after any writes, reads,
-- links, optimisations and deletions of other blocks since; for a write that reported no error, in
-- a state that such calls lead to from a new manager, as long as ids are left.
pub read_block-write_block :
    (md5 md5' : List ℕ → List ℕ) (now : ℤ) (bytes : List ℕ) (options : Option BlockOptions)
    {bm bm' : BlockManager}
    → Reached bm
    → bm.next_block_id + 1 < 2 ^ 32
    → (write_block md5 now bytes options bm).0 ≡ none
    → Since (next_id bm.free_list bm.next_block_id) (write_block md5 now bytes options bm).1 bm'
    → read_block md5' (next_id bm.free_list bm.next_block_id) bm' ≡ (ok bytes, bm')
read_block-write_block md5 md5' now bytes options {bm} {bm'} r left done since =
    let (_, held) =
      Since-IsHeld _ bytes (next r (written md5 now bytes options bm left))
        (new-IsHeld md5 now bytes options bm done) since in
    read_block-held md5' bm' _ bytes held.0
