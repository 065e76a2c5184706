-- ===== src/Store/Metadata/Protected.antt =====
-- The protected tags of the metadata (creation time, version and type) under all calls.
use fragmenta.Base.{ℕ, zero, suc, ◌≡◌, ◌^◌, sym, arith, List, Option}
use fragmenta.Base.{true, false, Bool-cases, Option-cases, inl, inr, Result-cases, ◌==◌, leb}
use fragmenta.Base.Int.{ℤ}
use fragmenta.Base.Map.{nat_eq, delete, insert, lookup, lookup-delete}
use fragmenta.Store.Disk.{File, read_be}
use fragmenta.Store.Metadata.{
  Manager, Entries, set_metadata, set_file, delete_metadata, flush, load_metadata, read_entry,
  read_entries, read_metadata, is_protected,
}
use fragmenta.Store.Metadata.Batch.{Batch, Clock, batch_operation}
use fragmenta.Store.Metadata.Batch.Effects.{IsPresent, insert-IsPresent, batch_operation-IsPresent}
use mathlib.Core.Path.{subst}

-- A call that changes the manager.
pub data Change : Manager → Manager → Type 0 where
  set_one :
      (now after : ℤ) (tag : ℕ) (value : List ℕ) (mm : Manager)
      → Change mm (set_metadata now after tag value mm)
  delete_one : (now : ℤ) (tag : ℕ) (mm : Manager) → Change mm (delete_metadata now tag mm).1
  run_batch :
      (clock : Clock) (now : ℤ) (batch : Batch) (mm : Manager)
      → Change mm (batch_operation clock now batch mm).1
  save : (now : ℤ) (mm : Manager) → Change mm (flush now mm).1
  change_file : (file : Option File) (mm : Manager) → Change mm (set_file file mm)
  load : (mm : Manager) → Change mm (load_metadata mm).1

-- Any number of calls.
pub data Changes : Manager → Manager → Type 0 where
  no_change : (mm : Manager) → Changes mm mm
  next : {start mm mm' : Manager} → Changes start mm → Change mm mm' → Changes start mm'

module _ (tag : ℕ) where
  read_entries-IsPresent :
      (n : ℕ) (src : List ℕ) (m : Entries)
      → IsPresent tag m
      → IsPresent tag (read_entries n src m).1
  unfolding read_entries
  read_entries-IsPresent zero src m h = h
  read_entries-IsPresent (suc n) src m h = elim (Result-cases (read_entry src)) [
    | inl ((e, rest), q) ↦
        rw (q, read_entries)
          (read_entries-IsPresent n rest (insert e.0 e.1 m) (insert-IsPresent tag e.0 e.1 m h))
    | inr (failure, q) ↦ rw (q, read_entries) h
  ]

  read_metadata-IsPresent :
      (src : List ℕ) (m : Entries) → IsPresent tag m → IsPresent tag (read_metadata src m).1
  unfolding read_metadata
  read_metadata-IsPresent src m h = elim (Result-cases (read_be 4 src)) [
    | inl ((count, rest), q) ↦ rw (q, read_metadata) (read_entries-IsPresent count rest m h)
    | inr (failure, q) ↦ rw (q, read_metadata) h
  ]

  load_metadata-IsPresent :
      (mm : Manager) → IsPresent tag mm.metadata → IsPresent tag (load_metadata mm).1.metadata
  unfolding load_metadata
  load_metadata-IsPresent mm h = elim (Option-cases mm.file) [
    | inl e ↦ rw (IsPresent, e) h
    | inr (f, e) ↦ elim (Bool-cases (mm.header.metadata_size == 0)) [
      | inl s ↦ rw (IsPresent, e, s) h
      | inr s ↦ elim (Bool-cases (leb (2 ^ 63) mm.header.metadata_offset)) [
        | inl o ↦ rw (IsPresent, e, s, o) h
        | inr o ↦ rw (IsPresent, e, s, o) (read_metadata-IsPresent _ mm.metadata h)
      ]
    ]
  ]

  flush_keeps : (now : ℤ) (mm : Manager) → (flush now mm).1.metadata ≡ mm.metadata
  unfolding flush
  flush_keeps now mm = elim (Option-cases mm.file) [
    | inl e ↦ ground arith
    | inr (f, e) ↦ ground arith
  ]

  delete_metadata-IsPresent :
      (now : ℤ) (key : ℕ) (mm : Manager)
      → is_protected tag ≡ true
      → IsPresent tag mm.metadata
      → IsPresent tag (delete_metadata now key mm).1.metadata
  unfolding delete_metadata
  delete_metadata-IsPresent now key mm p h = elim (Bool-cases (is_protected key)) [
    | inl e ↦ rw (IsPresent, e) h
    | inr e ↦ elim (Option-cases (lookup key mm.metadata)) [
      | inl q ↦ rw (IsPresent, e, q) h
      | inr (value, q) ↦ rw (IsPresent, e, q) (kept e)
    ]
  ]
    where
      kept : is_protected key ≡ false → IsPresent tag (delete key mm.metadata)
      kept e = ground (arith, lookup-delete key tag mm.metadata, p, h, e)

  Change-IsPresent :
      {mm mm' : Manager}
      → is_protected tag ≡ true
      → IsPresent tag mm.metadata
      → Change mm mm'
      → IsPresent tag mm'.metadata
  unfolding set_metadata set_file
  Change-IsPresent p h (set_one now after key value mm) =
      insert-IsPresent tag key value mm.metadata h
  Change-IsPresent p h (delete_one now key mm) = delete_metadata-IsPresent now key mm p h
  Change-IsPresent p h (run_batch clock now batch mm) =
      batch_operation-IsPresent clock now batch mm tag p h
  Change-IsPresent p h (save now mm) = subst (IsPresent tag) (sym (flush_keeps now mm)) h
  Change-IsPresent p h (change_file file mm) = h
  Change-IsPresent p h (load mm) = load_metadata-IsPresent mm h

-- No sequence of calls of the metadata manager that change it, with whatever arguments and whatever
-- the file holds, takes away a creation time, a version or a type that is set before it:
-- SetMetadata, DeleteMetadata, batches, Flush, LoadMetadata and SetFile.
pub Changes-IsPresent :
    (tag : ℕ) {start mm : Manager}
    → is_protected tag ≡ true
    → IsPresent tag start.metadata
    → Changes start mm
    → IsPresent tag mm.metadata
Changes-IsPresent tag p h (no_change start) = h
Changes-IsPresent tag p h (next earlier change) =
    Change-IsPresent tag p (Changes-IsPresent tag p h earlier) change
