-- ===== src/Store/Block/Reading.antt =====
-- block.go (ReadBlock, GetBlockInfo, readBlockHeader, readBlockData, calculateBlockOffset): blocks
-- are read from the cache or found in the file by a search from the first block on. The position
-- of the file after a search is not kept, since each call starts with a Seek.
pub mod Search
pub mod Written
use fragmenta.Base.{
  ℕ, zero, suc, ◌+◌, ◌-◌, ◌*◌, ◌%◌, ◌^◌, ◌<◌, List, [], ◌∷◌, ◌++◌, Option, none, some, length, drop,
}
use fragmenta.Base.{ltb, leb, ◌==◌, not, if◌then◌else◌, Bool, true, false, ◌&&◌, text_eq, bit_and}
use fragmenta.Base.{Result, ok, err, ◌>>=◌, map_err}
use fragmenta.Base.Bytes.{ReadError, eof}
use fragmenta.Base.Map.{nat_eq, insert, lookup}
use fragmenta.Store.Disk.{File, seek, ahead, read_be, read_some, zeros}
use fragmenta.Store.Header.{Header, int64}
use fragmenta.Store.Block.{BlockHeader, BlockManager}
use fragmenta.Base.Int.{pos}

pub data SearchError : Type 0 where
  reading : ReadError → SearchError
  not_found negative_position checksum_mismatch out_of_fuel : SearchError

abbrev pub field : ℕ → List ℕ → Result SearchError (ℕ × List ℕ)
field k src = map_err reading (read_be k src)

-- What one round of the two searches sees at an offset: the block's id and, if it is another one,
-- its size.
unfoldable pub block_at : ℕ → List ℕ → Result SearchError (Option ℕ)
block_at id src = do
  (current, rest) ← field 4 src
  elim (current == id) [
    | true ↦ ok none
    | false ↦ do (size, _) ← field 4 (drop 4 rest); ok (some size)
  ]

-- The search of readBlockHeader and of readBlockData: the offset of the block.
unfoldable pub find_block : ℕ → List ℕ → ℕ → ℕ → ℕ → Result SearchError ℕ
find_block zero content id end offset = err out_of_fuel
find_block (suc fuel) content id end offset = elim (ltb offset end) [
  | false ↦ err not_found
  | true ↦ elim (leb (2 ^ 63) offset) [
    | true ↦ err negative_position
    | false ↦ do
      found ← block_at id (drop offset content)
      elim found [
        | none ↦ ok offset
        | some size ↦ find_block fuel content id end ((offset + (64 + size)) % 2 ^ 64)
      ]
  ]
]

-- Where the blocks end, for a header.
unfoldable pub blocks_end : Header → ℕ
blocks_end header = (header.block_offset + header.block_size) % 2 ^ 64

-- A round takes 64 bytes of the file at least.
abbrev pub fuel_for : List ℕ → ℕ
fuel_for content = length content + 2

unfoldable pub search : ℕ → BlockManager → Result SearchError ℕ
search id bm =
    find_block (fuel_for bm.file.content) bm.file.content id (blocks_end bm.header)
      bm.header.block_offset

-- The fields of a block's header, in the order of readBlockHeader.
unfoldable pub read_fields : List ℕ → Result SearchError BlockHeader
read_fields src = do
  (id, s1) ← field 4 src
  (type, s2) ← field 1 s1
  (flags, s3) ← field 1 s2
  (reserved, s4) ← field 2 s3
  (size, s5) ← field 4 s4
  (sum, s6) ← map_err reading (read_some 16 s5)
  (previous, s7) ← field 4 s6
  (next, s8) ← field 4 s7
  (stamp, s9) ← field 8 s8
  ok (record {
    block_id = id;
    block_type = type;
    flags = flags;
    reserved = reserved;
    size = size;
    checksum = sum;
    previous_block = previous;
    next_block = next;
    timestamp = int64 stamp;
  })

-- readBlockHeader.
unfoldable pub read_block_header : ℕ → BlockManager → Result SearchError BlockHeader
read_block_header id bm = do offset ← search id bm; read_fields (drop offset bm.file.content)

abbrev bytes_at : ℕ → ℕ → List ℕ → Result SearchError (List ℕ)
bytes_at offset size content =
    if leb (2 ^ 63) offset
    then err negative_position
    else do (bytes, _) ← map_err reading (read_some size (drop offset content)); ok bytes

-- readBlockData, with its special case for the first block.
unfoldable pub read_block_data : BlockHeader → BlockManager → Result SearchError (List ℕ)
read_block_data h bm =
    if h.block_id == 1 && ltb 0 bm.header.block_offset
    then bytes_at ((bm.header.block_offset + 64) % 2 ^ 64) h.size bm.file.content
    else do offset ← search h.block_id bm; bytes_at ((offset + 64) % 2 ^ 64) h.size bm.file.content

-- calculateBlockOffset, for a header that is not nil.
unfoldable pub calculate_block_offset : ℕ → Header → ℕ
calculate_block_offset id header =
    if id == 0 then 0 else (header.block_offset + (id - 1) * 128 % 2 ^ 32) % 2 ^ 64

-- What ReadBlock reads where readBlockData meets the end of the file.
unfoldable pub available : ℕ → BlockManager → List ℕ
available id bm =
    let offset : ℕ = calculate_block_offset id bm.header in
    if not (offset == 0) && ltb ((offset + 64) % 2 ^ 64) (2 ^ 63)
    then drop ((offset + 64) % 2 ^ 64) bm.file.content
    else []

abbrev first_header : BlockManager → BlockHeader
first_header bm = record {
  block_id = 1;
  block_type = 0;
  flags = 0;
  reserved = 0;
  size = (bm.header.block_size + 2 ^ 64 - 64) % 2 ^ 32;
  checksum = zeros 16;
  previous_block = 0;
  next_block = 0;
  timestamp = pos 0;
}

-- The header that ReadBlock goes by: that in memory, that in the file, or a made-up one for the
-- first block.
unfoldable pub header_of : ℕ → BlockManager → Result SearchError BlockHeader
header_of id bm = elim (lookup id bm.block_map) [
  | some h ↦ ok h
  | none ↦ elim (read_block_header id bm) [
    | ok h ↦ ok h
    | err e ↦ if id == 1 && not (bm.header.block_size == 0) then ok (first_header bm) else err e
  ]
]

abbrev cached : ℕ → List ℕ → BlockManager → Result SearchError (List ℕ) × BlockManager
cached id bytes bm = (ok bytes, record bm { block_cache = insert id bytes bm.block_cache })

-- The end of ReadBlock, for what readBlockData returned.
unfoldable pub finish_read :
    (List ℕ → List ℕ)
    → ℕ
    → BlockHeader
    → Result SearchError (List ℕ)
    → BlockManager
    → Result SearchError (List ℕ) × BlockManager
finish_read md5 id h (ok bytes) bm =
    if not (bit_and h.flags 4 == 0) && not (text_eq (md5 bytes) h.checksum)
    then (err checksum_mismatch, bm)
    else cached id bytes bm
finish_read md5 id h (err (reading eof)) bm =
    if not (bm.header.block_size == 0) && not (length (available id bm) == 0)
    then cached id (available id bm) bm
    else (err (reading eof), bm)
finish_read md5 id h (err e) bm = (err e, bm)

-- ReadBlock.
unfoldable pub read_block :
    (List ℕ → List ℕ) → ℕ → BlockManager → Result SearchError (List ℕ) × BlockManager
read_block md5 id bm = elim (lookup id bm.block_cache) [
  | some bytes ↦ (ok bytes, bm)
  | none ↦ elim (header_of id bm) [
    | err e ↦ (err e, bm)
    | ok h ↦ finish_read md5 id h (read_block_data h bm) bm
  ]
]

-- GetBlockInfo.
unfoldable pub get_block_info : ℕ → BlockManager → Result SearchError BlockHeader × BlockManager
get_block_info id bm = elim (lookup id bm.block_map) [
  | some h ↦ (ok h, bm)
  | none ↦ elim (read_block_header id bm) [
    | err e ↦ (err e, bm)
    | ok h ↦ (ok h, record bm { block_map = insert id h bm.block_map })
  ]
]
