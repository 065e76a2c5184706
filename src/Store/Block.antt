-- ===== src/Store/Block.antt =====
-- block.go and structs.go (BlockHeader, BlockOptions): the blocks of a container file. The headers
-- that block_map points to have one pointer each, so the map holds the headers themselves.
pub mod Bytes
pub mod Chain
pub mod Ids
pub mod Reading
mod Runs
use fragmenta.Base.{
  ℕ, ◌+◌, ◌%◌, ◌^◌, ◌≡◌, List, [], ◌∷◌, ◌++◌, Option, none, some, length, leb, ◌==◌, not,
}
use fragmenta.Base.{if◌then◌else◌, Bool, true, false, ◌&&◌, ◌||◌}
use fragmenta.Base.Int.{ℤ, to_unsigned}
use fragmenta.Base.Bytes.{be_bytes}
use fragmenta.Base.Map.{nat_eq, insert, delete, lookup}
use fragmenta.Store.Disk.{File, seek, write_each, zeros}
use fragmenta.Store.Header.{Header, word}

pub record BlockHeader : Type 0 where
  pub block_id : ℕ
  pub block_type : ℕ
  pub flags : ℕ
  pub reserved : ℕ
  pub size : ℕ
  pub checksum : List ℕ
  pub previous_block : ℕ
  pub next_block : ℕ
  pub timestamp : ℤ

pub record BlockOptions : Type 0 where
  pub block_type : ℕ
  pub compress : Bool
  pub encrypt : Bool
  pub checksum : Bool
  pub append_to_block_id : ℕ

abbrev pub BlockMap : Type 0
BlockMap = List (ℕ × BlockHeader)

-- blockManagerImpl. `cacheSize` is never used.
pub record BlockManager : Type 0 where
  pub file : File
  pub next_block_id : ℕ
  pub block_map : BlockMap
  pub free_list : List ℕ
  pub block_cache : List (ℕ × List ℕ)
  pub is_dirty : Bool
  pub header : Header

-- NewBlockManager.
unfoldable pub new_block_manager : File → Header → BlockManager
new_block_manager file header = record {
  file = file;
  next_block_id = 0;
  block_map = [];
  free_list = [];
  block_cache = [];
  is_dirty = false;
  header = header;
}

-- `blocked` stands for a call that waits for ever for the mutex that it holds.
pub data BlockError : Type 0 where
  block_not_found negative_position blocked : BlockError

-- getNextBlockID.
unfoldable pub next_id : List ℕ → ℕ → ℕ
next_id [] n = (n + 1) % 2 ^ 32
next_id (id ∷ ids) n = id

unfoldable pub take_id : BlockManager → BlockManager
take_id bm = elim bm.free_list [
  | [] ↦ record bm { next_block_id = (bm.next_block_id + 1) % 2 ^ 32 }
  | id ∷ ids ↦ record bm { free_list = ids }
]

abbrev default_options : BlockOptions
default_options = record {
  block_type = 0;
  compress = false;
  encrypt = false;
  checksum = true;
  append_to_block_id = 0;
}

abbrev pub chosen : Option BlockOptions → BlockOptions
chosen none = default_options
chosen (some options) = options

-- The header of a new block. `md5` is crypto/md5's Sum.
unfoldable pub new_block : (List ℕ → List ℕ) → ℤ → ℕ → List ℕ → BlockOptions → BlockHeader
new_block md5 now id bytes options = record {
  block_id = id;
  block_type = options.block_type;
  flags = (if options.compress then 1 else 0) + (if options.encrypt then 2 else 0);
  reserved = 0;
  size = length bytes % 2 ^ 32;
  checksum = if options.checksum then md5 bytes else zeros 16;
  previous_block = 0;
  next_block = 0;
  timestamp = now;
}

-- The writes of WriteBlock, in order.
unfoldable pub block_chunks : BlockHeader → List ℕ → List (List ℕ)
block_chunks h bytes =
    be_bytes 4 h.block_id
    ∷ be_bytes 1 h.block_type
    ∷ be_bytes 1 h.flags
    ∷ be_bytes 2 h.reserved
    ∷ be_bytes 4 h.size
    ∷ h.checksum
    ∷ be_bytes 4 h.previous_block
    ∷ be_bytes 4 h.next_block
    ∷ be_bytes 8 (to_unsigned word h.timestamp)
    ∷ bytes
    ∷ []

-- Where the block goes, and the header that knows where the blocks start.
unfoldable pub block_position : Header → ℕ
block_position header =
    if header.block_offset == 0
    then (header.metadata_offset + header.metadata_size) % 2 ^ 64
    else (header.block_offset + header.block_size) % 2 ^ 64

unfoldable pub with_offset : Header → Header
with_offset header =
    if header.block_offset == 0
    then record header { block_offset = block_position header }
    else header

-- From the Seek of WriteBlock on.
unfoldable pub store_block :
    BlockHeader → List ℕ → BlockManager → (Option BlockError) × BlockManager
store_block h bytes bm =
    let counted : ℕ = (64 + h.size) % 2 ^ 32 in
    let started : Header = with_offset bm.header in
    if leb (2 ^ 63) (block_position bm.header)
    then (some negative_position, record bm { header = started })
    else (
      none,
      record bm {
        file = write_each (block_chunks h bytes) (seek (block_position bm.header) bm.file);
        header = record started {
          block_size = (started.block_size + counted) % 2 ^ 64;
          total_size = (started.total_size + counted) % 2 ^ 64;
        };
        block_map = insert h.block_id h bm.block_map;
        block_cache = insert h.block_id bytes bm.block_cache;
        is_dirty = true;
      },
    )

-- WriteBlock. With AppendToBlockID set it calls GetBlockInfo under its own lock. The block's id is
-- `next_id` of the manager before.
unfoldable pub write_block :
    (List ℕ → List ℕ)
    → ℤ
    → List ℕ
    → Option BlockOptions
    → BlockManager
    → (Option BlockError) × BlockManager
write_block md5 now bytes options bm =
    if not ((chosen options).append_to_block_id == 0)
    then (some blocked, take_id bm)
    else store_block
        (new_block md5 now (next_id bm.free_list bm.next_block_id) bytes (chosen options)) bytes
        (take_id bm)

-- `m[id]` changed where it is present.
unfoldable pub adjust : (BlockHeader → BlockHeader) → ℕ → BlockMap → BlockMap
adjust f id m = elim (lookup id m) [ none ↦ m | some h ↦ insert id (f h) m ]

abbrev pub set_next : ℕ → BlockHeader → BlockHeader
set_next id h = record h { next_block = id }

abbrev pub set_previous : ℕ → BlockHeader → BlockHeader
set_previous id h = record h { previous_block = id }

-- The links of DeleteBlock around the block with header `h`.
unfoldable pub unlink : BlockHeader → BlockMap → BlockMap
unlink h m =
    let m' : BlockMap =
      if h.previous_block == 0 then m else adjust (set_next h.next_block) h.previous_block m in
    if h.next_block == 0 then m' else adjust (set_previous h.previous_block) h.next_block m'

-- DeleteBlock.
unfoldable pub delete_block : ℕ → BlockManager → (Option BlockError) × BlockManager
delete_block id bm = elim (lookup id bm.block_map) [
  | none ↦ (some block_not_found, bm)
  | some h ↦ (
    none,
    record bm {
      block_map = delete id (unlink h bm.block_map);
      block_cache = delete id bm.block_cache;
      free_list = bm.free_list ++ (id ∷ []);
      is_dirty = true;
    },
  )
]

abbrev pub is_missing : ℕ → BlockMap → Bool
is_missing id m = elim (lookup id m) [ none ↦ true | some h ↦ false ]

-- LinkBlocks.
unfoldable pub link_blocks : ℕ → ℕ → BlockManager → (Option BlockError) × BlockManager
link_blocks source target bm =
    if is_missing source bm.block_map || is_missing target bm.block_map
    then (some block_not_found, bm)
    else (
      none,
      record bm {
        block_map =
            adjust (set_previous source) target (adjust (set_next target) source bm.block_map);
        is_dirty = true;
      },
    )

-- OptimizeBlocks, where the temporary file can be created.
unfoldable pub optimize_blocks : BlockManager → BlockManager
optimize_blocks bm = record bm { free_list = [] }
