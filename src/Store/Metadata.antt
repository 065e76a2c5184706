-- ===== src/Store/Metadata.antt =====
-- metadata.go and structs.go (the types of queries and batches): the tagged metadata of a
-- container file. Times are UnixNano numbers, each reading of the clock is an argument. The map's
-- order in the list stands for the order of `range`. The position of the file after an operation
-- is not kept, since each operation starts with a Seek. The locks are left out.
pub mod Batch
pub mod Persistence
pub mod Protected
pub mod Query
mod Runs
use fragmenta.Base.{ℕ, zero, suc, ◌+◌, ◌-◌, ◌%◌, ◌^◌, ◌≡◌, List, [], ◌∷◌, ◌++◌, Option, none, some}
use fragmenta.Base.{length, drop, any, all, ltb, leb, ◌==◌, if◌then◌else◌, Bool, true, false, not}
use fragmenta.Base.{◌&&◌, ◌||◌, Result, ok, err, ◌>>=◌, text_eq, has_prefix}
use fragmenta.Base.Int.{ℤ, pos, ltb_ℤ, pos_part, neg_part}
use fragmenta.Base.Bytes.{ReadError, be_bytes}
use fragmenta.Base.Map.{nat_eq, insert, delete, lookup}
use fragmenta.Store.Disk.{File, seek, write_each, ahead, read_be, read_some}
use fragmenta.Store.Header.{Header, decode_int64}

abbrev pub Entries : Type 0
Entries = List (ℕ × List ℕ)

-- metadataManagerImpl. `tagIndices` is never used.
pub record Manager : Type 0 where
  pub metadata : Entries
  pub is_dirty : Bool
  pub last_modified : ℤ
  pub header : Header
  pub file : Option File

pub data MetadataError : Type 0 where
  invalid_operation metadata_not_found protected_metadata invalid_query negative_position :
      MetadataError
  reading : ReadError → MetadataError

abbrev pub tag_version : ℕ
tag_version = 1

abbrev pub tag_create_time : ℕ
tag_create_time = 2

abbrev pub tag_last_modified : ℕ
tag_last_modified = 3

abbrev pub tag_fragmenta_type : ℕ
tag_fragmenta_type = 9

abbrev pub is_protected : ℕ → Bool
is_protected tag = tag == tag_create_time || tag == tag_version || tag == tag_fragmenta_type

abbrev is_zero : ℤ → Bool
is_zero v = pos_part v == 0 && neg_part v == 0

abbrev time_stamp : ℤ → List ℕ → ℤ
time_stamp now value = if leb 8 (length value) then decode_int64 value else now

-- SetMetadata. `now` and `later` are its readings of the clock.
unfoldable pub set_metadata : ℤ → ℤ → ℕ → List ℕ → Manager → Manager
set_metadata now later tag value mm =
    let header : Header =
      if tag == tag_last_modified
      then record mm.header { last_modified = later }
      else if tag == tag_create_time && is_zero mm.header.timestamp
      then record mm.header { timestamp = time_stamp later value }
      else mm.header in
    record mm {
      metadata = insert tag value mm.metadata;
      is_dirty = true;
      last_modified = now;
      header = header;
    }

-- GetMetadata.
unfoldable pub get_metadata : ℕ → Manager → Result MetadataError (List ℕ)
get_metadata tag mm = elim (lookup tag mm.metadata) [
  | none ↦ err metadata_not_found
  | some value ↦ ok value
]

-- DeleteMetadata: what it returns, and the state after it.
unfoldable pub delete_metadata : ℤ → ℕ → Manager → Option MetadataError × Manager
delete_metadata now tag mm =
    if is_protected tag then (some protected_metadata, mm) else elim (lookup tag mm.metadata) [
      | none ↦ (some metadata_not_found, mm)
      | some value ↦ (
        none,
        record mm { metadata = delete tag mm.metadata; is_dirty = true; last_modified = now },
      )
    ]

-- ListMetadata: a copy of the map.
unfoldable pub list_metadata : Manager → Entries
list_metadata mm = mm.metadata

-- SetFile.
unfoldable pub set_file : Option File → Manager → Manager
set_file file mm = record mm { file = file }

-- What Flush writes for one entry, and for all of them.
abbrev pub entry_chunks : ℕ × List ℕ → List (List ℕ)
entry_chunks e =
    be_bytes 2 e.0 ∷ be_bytes 2 (length e.1 % 2 ^ 16) ∷ be_bytes 1 0 ∷ be_bytes 1 0 ∷ e.1 ∷ []

unfoldable pub all_chunks : Entries → List (List ℕ)
all_chunks [] = []
all_chunks (e ∷ m) = entry_chunks e ++ all_chunks m

unfoldable pub entries_size : Entries → ℕ
entries_size [] = 0
entries_size (e ∷ m) = 6 + length e.1 + entries_size m

-- Flush. `now` is its reading of the clock; an offset from 2 ^ 63 on is a negative position.
unfoldable pub flush : ℤ → Manager → Option MetadataError × Manager
flush now mm = if not mm.is_dirty then (none, mm) else elim mm.file [
  | none ↦ (none, mm)
  | some f ↦
      let marked : Manager = record mm {
        last_modified = now;
        header = record mm.header {
          last_modified = now;
          metadata_size = (4 + entries_size mm.metadata) % 2 ^ 64;
        };
      } in
      if leb (2 ^ 63) mm.header.metadata_offset then (some negative_position, marked) else (
        none,
        record marked {
          is_dirty = false;
          file = some (
              write_each (be_bytes 4 (length mm.metadata % 2 ^ 32) ∷ all_chunks mm.metadata)
                (seek mm.header.metadata_offset f));
        },
      )
]

-- One round of the loop of LoadMetadata.
unfoldable pub read_entry : List ℕ → Result ReadError ((ℕ × List ℕ) × List ℕ)
read_entry src = do
  (tag, s1) ← read_be 2 src
  (size, s2) ← read_be 2 s1
  (flags, s3) ← read_be 1 s2
  (reserved, s4) ← read_be 1 s3
  (value, s5) ← read_some size s4
  ok ((tag, value), s5)

-- The loop: the entries in front of a failure stay in the map.
unfoldable pub read_entries : ℕ → List ℕ → Entries → Option MetadataError × Entries
read_entries zero src m = (none, m)
read_entries (suc n) src m = elim (read_entry src) [
  | err e ↦ (some (reading e), m)
  | ok (e, rest) ↦ read_entries n rest (insert e.0 e.1 m)
]

unfoldable pub read_metadata : List ℕ → Entries → Option MetadataError × Entries
read_metadata src m = elim (read_be 4 src) [
  | err e ↦ (some (reading e), m)
  | ok (count, rest) ↦ read_entries count rest m
]

abbrev is_failed : Option MetadataError → Bool
is_failed none = false
is_failed (some e) = true

-- LoadMetadata.
unfoldable pub load_metadata : Manager → Option MetadataError × Manager
load_metadata mm = elim mm.file [
  | none ↦ (some invalid_operation, mm)
  | some f ↦
      if mm.header.metadata_size == 0
      then (none, mm)
      else if leb (2 ^ 63) mm.header.metadata_offset
      then (some negative_position, mm)
      else let (failure, m) =
          read_metadata (ahead (seek mm.header.metadata_offset f)) mm.metadata in
        (failure, record mm { metadata = m; is_dirty = is_failed failure && mm.is_dirty })
]

-- NewMetadataManager: what LoadMetadata returns is dropped.
unfoldable pub new_metadata_manager : ℤ → Header → Option File → Manager
new_metadata_manager now header file =
    let empty : Manager = record {
      metadata = [];
      is_dirty = false;
      last_modified = now;
      header = header;
      file = file;
    } in
    elim file [ none ↦ empty | some f ↦ (load_metadata empty).1 ]
