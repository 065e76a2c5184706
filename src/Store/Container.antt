-- ===== src/Store/Container.antt =====
-- format.go (FragmentaImpl and its constructors): the container file as a whole. Its header and its
-- file are shared with the two managers through pointers: a call of a manager starts from the
-- container's header and file, and leaves its own there. What opening and closing a file of the
-- operating system does besides is not modelled.
pub mod Reopen
mod Runs
use fragmenta.Base.{ℕ, ◌+◌, ◌%◌, ◌^◌, List, [], ◌∷◌, ◌++◌, Option, none, some, length, not, ◌==◌}
use fragmenta.Base.{if◌then◌else◌, Bool, true, false, Result, ok, err, ◌>>=◌, ◌>>◌, map_err, codes}
use fragmenta.Base.Int.{ℤ, pos}
use fragmenta.Store.Disk.{File, seek, ahead}
use fragmenta.Store.Header.{Header, HeaderError, read_header, validate_header, write_header}
use fragmenta.Store.Header.{
  initialize_header, encode_int64, container_mode, directory_mode, current_version,
}
use fragmenta.Store.Metadata
use fragmenta.Store.Metadata.{
  Manager, Entries, MetadataError, flush, new_metadata_manager, tag_create_time, tag_version,
  tag_fragmenta_type,
}
use fragmenta.Store.Metadata.Batch.{Batch, Clock, batch_operation}
use fragmenta.Store.Metadata.Query.{Query, QueryResult, ResultEntry, equals, query_metadata}
use fragmenta.Store.Block.{BlockManager, BlockError, BlockOptions, new_block_manager, next_id}
use fragmenta.Store.Block

pub data ContainerError : Type 0 where
  of_metadata : MetadataError → ContainerError
  of_header : HeaderError → ContainerError
  of_blocks : BlockError → ContainerError
  read_only invalid_operation blocked : ContainerError

-- FragmentaImpl. Its path, its service handles and its two caches are never read.
pub record Container : Type 0 where
  pub file : File
  pub header : Header
  pub metadata : Manager
  pub blocks : BlockManager
  pub is_dirty : Bool
  pub is_open : Bool
  pub is_read_only : Bool

abbrev pub metadata_of : Container → Manager
metadata_of c = record c.metadata { header = c.header; file = some c.file }

abbrev file_or : Option File → File → File
file_or none f = f
file_or (some g) f = g

abbrev pub with_metadata : Manager → Container → Container
with_metadata mm c = record c { metadata = mm; header = mm.header; file = file_or mm.file c.file }

abbrev pub blocks_of : Container → BlockManager
blocks_of c = record c.blocks { header = c.header; file = c.file }

abbrev pub with_blocks : BlockManager → Container → Container
with_blocks bm c = record c { blocks = bm; header = bm.header; file = bm.file }

abbrev pub touched : Container → Container
touched c = record c { is_dirty = true }

-- What a call of the metadata manager leaves: the container is dirty unless the call has failed.
abbrev after_call : Option MetadataError × Manager → Container → Option ContainerError × Container
after_call (none, mm) c = (none, touched (with_metadata mm c))
after_call (some e, mm) c = (some (of_metadata e), with_metadata mm c)

-- SetMetadata.
unfoldable pub set_metadata : ℤ → ℤ → ℕ → List ℕ → Container → Option ContainerError × Container
set_metadata now later tag value c = if c.is_read_only then (some read_only, c) else (
  none,
  touched (with_metadata (Metadata.set_metadata now later tag value (metadata_of c)) c),
)

-- GetMetadata.
unfoldable pub get_metadata : ℕ → Container → Result MetadataError (List ℕ)
get_metadata tag c = Metadata.get_metadata tag (metadata_of c)

-- DeleteMetadata.
unfoldable pub delete_metadata : ℤ → ℕ → Container → Option ContainerError × Container
delete_metadata now tag c =
    if c.is_read_only
    then (some read_only, c)
    else after_call (Metadata.delete_metadata now tag (metadata_of c)) c

-- BatchMetadataOp.
unfoldable pub batch_metadata_op : Clock → ℤ → Batch → Container → Option ContainerError × Container
batch_metadata_op clock now batch c =
    if c.is_read_only
    then (some read_only, c)
    else after_call (batch_operation clock now batch (metadata_of c)) c

-- ListMetadata.
unfoldable pub list_metadata : Container → Entries
list_metadata c = Metadata.list_metadata (metadata_of c)

-- QueryMetadata.
unfoldable pub query : ℕ → Query → Container → Result MetadataError QueryResult
query elapsed q c = query_metadata elapsed q (metadata_of c)

-- QueryByTag.
unfoldable pub query_by_tag : ℕ → ℕ → List ℕ → Container → Result MetadataError (List ResultEntry)
query_by_tag elapsed tag value c = do
  result ←
      query elapsed
        (record {
          conditions = record { tag = tag; operator = equals; value = value } ∷ [];
          limit = 100;
          offset = 0;
        })
        c
  ok result.entries

abbrev written :
    List ℕ → ℕ → Option BlockError × BlockManager → Container → Result ContainerError ℕ × Container
written bytes id (some e, bm) c = (err (of_blocks e), with_blocks bm c)
written bytes id (none, bm) c =
    let c' : Container = with_blocks bm c in
    (
      ok id,
      touched (record c' {
        header = record c'.header { block_size = (c'.header.block_size + length bytes) % 2 ^ 64 };
      }),
    )

-- WriteBlock. The size of the bytes is added to BlockSize once more.
unfoldable pub write_block :
    (List ℕ → List ℕ)
    → ℤ
    → List ℕ
    → Option BlockOptions
    → Container
    → Result ContainerError ℕ × Container
write_block md5 now bytes options c =
    if c.is_read_only
    then (err read_only, c)
    else written bytes (next_id c.blocks.free_list c.blocks.next_block_id)
        (Block.write_block md5 now bytes options (blocks_of c)) c

-- WriteFromReader, for a reader that yields its bytes.
unfoldable pub write_from_reader :
    (List ℕ → List ℕ)
    → ℤ
    → List ℕ
    → Option BlockOptions
    → Container
    → Option ContainerError × Container
write_from_reader md5 now bytes options c =
    let (result, c') = write_block md5 now bytes options c in
    (elim result [ err e ↦ some e | ok id ↦ none ], c')

-- The end of Commit, after the metadata manager's Flush.
abbrev committed : Option MetadataError × Manager → Container → Option ContainerError × Container
committed (some e, mm) c = (some (of_metadata e), with_metadata mm c)
committed (none, mm) c =
    let c' : Container = with_metadata mm c in
    (none, record c' { file = write_header c'.header c'.file; is_dirty = false })

-- Commit. `now` is its own reading of the clock, `later` that of the Flush.
unfoldable pub commit : ℤ → ℤ → Container → Option ContainerError × Container
commit now later c =
    if not c.is_dirty
    then (none, c)
    else if c.is_read_only
    then (some read_only, c)
    else let started : Container = record c { header = record c.header { last_modified = now } } in
      committed (flush later (metadata_of started)) started

-- Close. It calls Commit while it holds the mutex that Commit acquires.
unfoldable pub close : Container → Option ContainerError × Container
close c =
    if not c.is_open
    then (none, c)
    else if c.is_dirty
    then (some blocked, c)
    else (none, record c { is_open = false })

-- The checks of ConvertToDirectoryMode and ConvertToContainerMode, which do nothing else.
abbrev convert_from : ℕ → Container → Option ContainerError
convert_from mode c =
    if c.is_read_only
    then some read_only
    else if not (c.header.storage_mode == mode)
    then some invalid_operation
    else none

unfoldable pub convert_to_directory_mode : Container → Option ContainerError
convert_to_directory_mode c = convert_from container_mode c

unfoldable pub convert_to_container_mode : Container → Option ContainerError
convert_to_container_mode c = convert_from directory_mode c

unfoldable pub optimize_storage : Container → Option ContainerError
optimize_storage c = if c.is_read_only then some read_only else none

-- initializeComponents, on a header and a file. `now` is when the metadata manager is made.
unfoldable pub initialize_components : ℤ → Bool → Header → File → Container
initialize_components now is_read_only header file =
    let mm : Manager = new_metadata_manager now header (some file) in
    record {
      file = file_or mm.file file;
      header = mm.header;
      metadata = mm;
      blocks = new_block_manager file header;
      is_dirty = false;
      is_open = true;
      is_read_only = is_read_only;
    }

-- The readings of the clock of the metadata that a new container starts with.
pub record Creation : Type 0 where
  pub created : ℤ
  pub modified : ℤ
  pub opened : ℤ
  pub stamp : ℤ
  pub first : ℤ × ℤ
  pub second : ℤ × ℤ
  pub third : ℤ × ℤ

abbrev initial_metadata : Creation → Manager → Manager
initial_metadata t mm =
    Metadata.set_metadata t.third.0 t.third.1 tag_fragmenta_type (codes "FragDB") (
      Metadata.set_metadata t.second.0 t.second.1 tag_version (encode_int64 (pos current_version))
        (Metadata.set_metadata t.first.0 t.first.1 tag_create_time (encode_int64 t.stamp) mm))

abbrev empty_file : File
empty_file = record { content = []; pos = 0 }

-- NewFragmenta, with the storage mode of its options, on the empty file that os.Create yields.
unfoldable pub new_fragmenta : Creation → ℕ → Container
new_fragmenta t mode =
    let header : Header = record (initialize_header t.created t.modified) { storage_mode = mode } in
    let c : Container =
      initialize_components t.opened false header (write_header header empty_file) in
    touched (with_metadata (initial_metadata t (metadata_of c)) c)

-- NewFragmentaFromExisting, on the file that was opened; `writable` is the owner's write bit.
unfoldable pub new_fragmenta_from_existing : ℤ → Bool → File → Result ContainerError Container
new_fragmenta_from_existing now writable file = do
  header ← map_err of_header (read_header (ahead (seek 0 file)))
  map_err of_header (validate_header header)
  ok (initialize_components now (not writable) header file)
