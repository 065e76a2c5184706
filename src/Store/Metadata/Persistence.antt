-- ===== src/Store/Metadata/Persistence.antt =====
-- What Flush writes, LoadMetadata reads back.
use fragmenta.Base.{ℕ, ◌+◌, ◌*◌, ◌≤◌, ◌%◌, ◌<◌, ◌≡◌, ◌≢◌, ◌^◌, refl, ◌∙◌, arith}
use fragmenta.Base.{List, [], ◌∷◌, ◌++◌, length, All, none, some, ok, true, false}
use fragmenta.Base.{◌==◌}
use fragmenta.Base.Bytes.{be_bytes}
use fragmenta.Base.Int.{ℤ}
use fragmenta.Base.Map.{nat_eq, insert, lookup, lookup-insert}
use fragmenta.Store.Disk.{File, seek, write_each, ahead, concat}
use fragmenta.Store.Disk.Laws.{write_each_lem, ahead-write, read_be-be_bytes, read_some-append}
use fragmenta.Store.Header.{Header}
use fragmenta.Store.Metadata.{Manager, Entries, entry_chunks, all_chunks, entries_size}
use fragmenta.Store.Metadata.{flush, read_entry, read_entries, read_metadata, load_metadata}
use fragmenta.Store.Metadata.{new_metadata_manager}
use mathlib.Core.List.{append_assoc, append-nil}
use native.Mathlib.Nat.{mod-eq_of_lt}

-- A tag and a value that the two 16-bit fields of an entry hold.
abbrev pub IsEntry : ℕ × List ℕ → Type 0
IsEntry e = (e.0 < 2 ^ 16) × (length e.1 < 2 ^ 16)

abbrev pub Distinct : Entries → Type 0
Distinct [] = Unit {0}
Distinct (e ∷ m) = All (λ (other : ℕ × List ℕ). e.0 ≢ other.0) m × Distinct m

abbrev Fresh : Entries → ℕ × List ℕ → Type 0
Fresh acc e = lookup e.0 acc ≡ none

read_entry-entry_chunks :
    (e : ℕ × List ℕ) (rest : List ℕ)
    → IsEntry e
    → read_entry (concat (entry_chunks e) ++ rest) ≡ ok (e, rest)
unfolding read_entry
read_entry-entry_chunks (tag, value) rest (small_tag, small_value) = rw (
  append_assoc (be_bytes 2 tag),
  append_assoc (be_bytes 2 (length value % 2 ^ 16)),
  append_assoc (be_bytes 1 0),
  append_assoc (be_bytes 1 0),
  append_assoc value,
  mod-eq_of_lt small_value,
  read_be-be_bytes 2 tag _ small_tag,
  read_be-be_bytes 2 (length value) _ small_value,
  read_be-be_bytes 1 0 (be_bytes 1 0 ++ (value ++ rest)) (omega arith),
  read_be-be_bytes 1 0 (value ++ rest) (omega arith),
  read_some-append value rest _ refl,
)

insert-Fresh :
    (key : ℕ) (value : List ℕ) (m : Entries)
    → lookup key m ≡ none
    → insert key value m ≡ m ++ ((key, value) ∷ [])
unfolding insert lookup
insert-Fresh key value [] h = refl
insert-Fresh key value ((k, v) ∷ m) h = ground (arith, insert-Fresh key value m)

Fresh-insert :
    (e other : ℕ × List ℕ) (acc : Entries)
    → e.0 ≢ other.0
    → Fresh acc other
    → Fresh (insert e.0 e.1 acc) other
Fresh-insert e other acc differ fresh = ground (arith, lookup-insert e.0 other.0 e.1 acc)

All-Fresh-insert :
    (e : ℕ × List ℕ) (acc m : Entries)
    → All (λ (other : ℕ × List ℕ). e.0 ≢ other.0) m
    → All (Fresh acc) m
    → All (Fresh (insert e.0 e.1 acc)) m
All-Fresh-insert e acc [] differ fresh = tt
All-Fresh-insert e acc (other ∷ m) (d, differ) (f, fresh) =
    (Fresh-insert e other acc d f, All-Fresh-insert e acc m differ fresh)

read_entries-all_chunks :
    (m acc : Entries) (rest : List ℕ)
    → All IsEntry m
    → Distinct m
    → All (Fresh acc) m
    → read_entries (length m) (concat (all_chunks m) ++ rest) acc ≡ (none, acc ++ m)
unfolding read_entries all_chunks
read_entries-all_chunks [] acc rest small distinct fresh = rw append-nil
read_entries-all_chunks (e ∷ m) acc rest (small, smalls) (differ, distinct) (f, fresh) = rw split (
    rw (read_entries, read_entry-entry_chunks e (concat (all_chunks m) ++ rest) small)
      (read_entries-all_chunks m (insert e.0 e.1 acc) rest smalls distinct
          (All-Fresh-insert e acc m differ fresh)
        ∙ rw (insert-Fresh e.0 e.1 acc f, append_assoc)))
  where
    split :
        concat (entry_chunks e ++ all_chunks m) ++ rest
        ≡ concat (entry_chunks e) ++ (concat (all_chunks m) ++ rest)
    split = simp append_assoc

pub entries_size-le : (m : Entries) → All IsEntry m → entries_size m ≤ 65541 * length m
unfolding entries_size
entries_size-le [] small = omega arith
entries_size-le (e ∷ m) (small, smalls) = omega (arith, entries_size-le m smalls, small.1)

-- What a manager holds when it can be saved: the tags differ and fit their fields, as do the values
-- and their number, and the area does not start at a negative position.
pub record IsManager (mm : Manager) : Type 0 where
  pub entries : All IsEntry mm.metadata
  pub distinct : Distinct mm.metadata
  pub count : length mm.metadata < 2 ^ 32
  pub offset : mm.header.metadata_offset < 2 ^ 63

All-Fresh-nil : (m : Entries) → All (Fresh []) m
unfolding lookup
All-Fresh-nil [] = tt
All-Fresh-nil (e ∷ m) = (refl, All-Fresh-nil m)

pub saved : Manager → File → File
saved mm f =
    write_each (be_bytes 4 (length mm.metadata % 2 ^ 32) ∷ all_chunks mm.metadata)
      (seek mm.header.metadata_offset f)

pub read_saved :
    (mm : Manager) (f : File)
    → IsManager mm
    → read_metadata (ahead (seek mm.header.metadata_offset (saved mm f))) [] ≡ (none, mm.metadata)
unfolding read_metadata saved seek
read_saved mm f is =
    rw
      (write_each_lem (be_bytes 4 (length mm.metadata % 2 ^ 32)) (all_chunks mm.metadata)
        (seek mm.header.metadata_offset f))
      (rw (ahead-write _ (seek mm.header.metadata_offset f)) (
        rw
          (
            read_metadata,
            append_assoc,
            mod-eq_of_lt is.count,
            read_be-be_bytes 4 (length mm.metadata) _ is.count,
          )
          (read_entries-all_chunks mm.metadata [] _ is.entries is.distinct
            (All-Fresh-nil mm.metadata))))

unfoldable pub flushed_header : ℤ → Manager → Header
flushed_header now mm = record mm.header {
  last_modified = now;
  metadata_size = (4 + entries_size mm.metadata) % 2 ^ 64;
}

unfoldable pub flushed : ℤ → Manager → File → Manager
unfolding saved flushed_header
flushed now mm f = record mm {
  last_modified = now;
  header = flushed_header now mm;
  is_dirty = false;
  file = some (saved mm f);
}

pub flush_lem :
    (now : ℤ) (mm : Manager) (f : File)
    → mm.is_dirty ≡ true
    → mm.file ≡ some f
    → mm.header.metadata_offset < 2 ^ 63
    → flush now mm ≡ (none, flushed now mm f)
unfolding flush flushed saved flushed_header
flush_lem now mm f dirty opened small = ground arith

pub size_kept :
    (now : ℤ) (mm : Manager) → IsManager mm → ((flushed_header now mm).metadata_size == 0) ≡ false
unfolding flushed_header
size_kept now mm is =
    ground (arith, mod-eq_of_lt bounded, entries_size-le mm.metadata is.entries, is.count)
  where
    bounded : 4 + entries_size mm.metadata < 2 ^ 64
    bounded = omega (arith, entries_size-le mm.metadata is.entries, is.count)

loaded :
    (now later : ℤ) (mm : Manager) (f : File)
    → IsManager mm
    → (new_metadata_manager later (flushed_header now mm) (some (saved mm f))).metadata
      ≡ mm.metadata
unfolding new_metadata_manager load_metadata flushed_header
loaded now later mm f is = ground (arith, size_kept now mm is, read_saved mm f is, is.offset)

-- A manager that starts on the file and the header after a Flush holds the metadata that the
-- flushed manager held; for a changed manager with a file, whose tags are distinct, whose tags and
-- values fit their 16-bit fields and which are fewer than 2 ^ 32, in an area that starts below
-- 2 ^ 63. The Flush reports no error and leaves nothing to flush.
pub new_metadata_manager-flush :
    (now later : ℤ) (mm : Manager) (f : File)
    → IsManager mm
    → mm.is_dirty ≡ true
    → mm.file ≡ some f
    → ((flush now mm).0 ≡ none)
      × ((flush now mm).1.is_dirty ≡ false)
      × ((new_metadata_manager later (flush now mm).1.header (flush now mm).1.file).metadata
          ≡ mm.metadata)
unfolding flushed
new_metadata_manager-flush now later mm f is dirty opened =
    rw (flush_lem now mm f dirty opened is.offset) (refl, refl, loaded now later mm f is)
