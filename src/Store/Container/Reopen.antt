-- ===== src/Store/Container/Reopen.antt =====
-- A container that was committed and is opened again.
use fragmenta.Base.{◌+◌, ◌-◌, ◌≤◌, ◌<◌, ◌≡◌, ◌^◌, refl, ap, ◌∙◌, arith, [], none, some}
use fragmenta.Base.{Bool, true, false, not, ◌==◌, ok, drop}
use fragmenta.Base.Int.{ℤ, IsWithin}
use mathlib.Core.Path.{subst}
use fragmenta.Store.Disk.{File, seek, ahead}
use fragmenta.Store.Header.{Header, read_header, write_header}
use fragmenta.Store.Header.RoundTrip.{
  IsHeader, header_size, read_header-write_header, read_header-validate_header,
}
use fragmenta.Store.Metadata.{Manager, Entries, read_metadata, load_metadata, new_metadata_manager}
use fragmenta.Store.Metadata.Persistence.{
  IsManager, saved, read_saved, flushed_header, flushed, flush_lem, size_kept,
}
use fragmenta.Store.Container.{
  Container, metadata_of, commit, initialize_components, new_fragmenta_from_existing,
}

-- The header is one that can be written, the metadata can be saved, and its area is behind the header.
pub record IsContainer (c : Container) : Type 0 where
  pub header : IsHeader c.header
  pub metadata : IsManager (metadata_of c)
  pub area : header_size ≤ c.header.metadata_offset

new_manager-read :
    (now : ℤ) (h : Header) (f : File) (m : Entries)
    → (h.metadata_size == 0) ≡ false
    → h.metadata_offset < 2 ^ 63
    → read_metadata (ahead (seek h.metadata_offset f)) [] ≡ (none, m)
    → ((new_metadata_manager now h (some f)).metadata ≡ m)
      × ((new_metadata_manager now h (some f)).header ≡ h)
unfolding new_metadata_manager load_metadata
new_manager-read now h f m size offset e = (ground arith, ground arith)

module _ (now later : ℤ) (c : Container) (is : IsContainer c) where
  manager : Manager
  manager = metadata_of (record c { header = record c.header { last_modified = now } })

  manager-IsManager : IsManager manager
  unfolding manager
  manager-IsManager = record {
    entries = is.metadata.entries;
    distinct = is.metadata.distinct;
    count = is.metadata.count;
    offset = is.metadata.offset;
  }

  new_header : Header
  unfolding manager
  new_header = flushed_header later manager

  new_header-IsHeader : IsWithin (2 ^ 63) later → IsHeader new_header
  unfolding new_header flushed_header manager
  new_header-IsHeader w = record {
    magic = is.header.magic;
    version = is.header.version;
    flags = is.header.flags;
    timestamp = is.header.timestamp;
    storage_mode = is.header.storage_mode;
    reserved1 = is.header.reserved1;
    reserved2 = is.header.reserved2;
    metadata_offset = is.header.metadata_offset;
    block_offset = is.header.block_offset;
    block_size = is.header.block_size;
    index_offset = is.header.index_offset;
    index_size = is.header.index_size;
    total_size = is.header.total_size;
    user_defined_id = is.header.user_defined_id;
    check_sum = is.header.check_sum;
    last_modified = w;
    metadata_size = omega arith;
  }

  new_file : File
  unfolding new_header
  new_file = write_header new_header (saved manager c.file)

  commit_lem :
      c.is_dirty ≡ true
      → c.is_read_only ≡ false
      → c.metadata.is_dirty ≡ true
      → commit now later c ≡ (
        none,
        record c {
          metadata = flushed later manager c.file;
          header = new_header;
          file = new_file;
          is_dirty = false;
        },
      )
  unfolding commit new_file new_header manager
  commit_lem dirty writable changed =
      rw (dirty, writable, flush_lem later manager c.file changed refl is.metadata.offset)
        (unfold flushed in refl)

  read_back : IsWithin (2 ^ 63) later → read_header (ahead (seek 0 new_file)) ≡ ok new_header
  unfolding new_file
  read_back w =
      (read_header-write_header new_header (saved manager c.file) (new_header-IsHeader w)).0

  -- The header's bytes end before the metadata's area, so both can be read.
  metadata_kept :
      IsWithin (2 ^ 63) later
      → ahead (seek c.header.metadata_offset new_file)
        ≡ ahead (seek c.header.metadata_offset (saved manager c.file))
  unfolding new_file ahead seek
  metadata_kept w =
      subst (λ n. drop n new_file.content ≡ drop n (saved manager c.file).content)
        (let e : header_size + (c.header.metadata_offset - header_size) ≡ c.header.metadata_offset =
            omega (arith, is.area) in
          e)
        ((read_header-write_header new_header (saved manager c.file) (new_header-IsHeader w)).1
          (c.header.metadata_offset - header_size))

  metadata_read :
      (again : ℤ)
      → IsWithin (2 ^ 63) later
      → ((new_metadata_manager again new_header (some new_file)).metadata ≡ c.metadata.metadata)
        × ((new_metadata_manager again new_header (some new_file)).header ≡ new_header)
  unfolding new_header manager flushed_header
  metadata_read again w =
      new_manager-read again new_header new_file c.metadata.metadata
        (size_kept later manager manager-IsManager) is.metadata.offset
        (ap (λ src. read_metadata src []) (metadata_kept w)
          ∙ read_saved manager c.file manager-IsManager)

  reopened :
      (again : ℤ) (writable : Bool)
      → IsWithin (2 ^ 63) later
      → new_fragmenta_from_existing again writable new_file
        ≡ ok (initialize_components again (not writable) new_header new_file)
  unfolding new_fragmenta_from_existing
  reopened again writable w =
      rw (read_back w, read_header-validate_header _ new_header (read_back w)) refl

-- A container that Commit has written is opened again with the header and the metadata that it had
-- then, read-only if the file is not writable. Commit reports no error and leaves nothing to commit.
-- It is for a writable container with changed metadata that can be saved in an area behind the
-- header, whose header can be written, and a time that fits an int64.
pub new_fragmenta_from_existing-commit :
    (now later again : ℤ) (writable : Bool) (c : Container)
    → IsContainer c
    → c.is_dirty ≡ true
    → c.is_read_only ≡ false
    → c.metadata.is_dirty ≡ true
    → IsWithin (2 ^ 63) later
    → ((commit now later c).0 ≡ none)
      × ((commit now later c).1.is_dirty ≡ false)
      × ((c' : Container) × (new_fragmenta_from_existing again writable (commit now later c).1.file
            ≡ ok c')
          × (c'.header ≡ (commit now later c).1.header)
          × (c'.metadata.metadata ≡ c.metadata.metadata)
          × (c'.is_read_only ≡ not writable))
unfolding initialize_components
new_fragmenta_from_existing-commit now later again writable c is dirty may_write changed w =
    rw (commit_lem now later c is dirty may_write changed) (
      refl,
      refl,
      (
        initialize_components again (not writable) (new_header now later c is)
            (new_file now later c is),
        reopened now later c is again writable w,
        (metadata_read now later c is again w).1,
        (metadata_read now later c is again w).0,
        refl,
      ),
    )
