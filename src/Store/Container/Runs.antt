-- ===== src/Store/Container/Runs.antt =====
-- Theorems of the container at concrete inputs.
use fragmenta.Base.{◌≡◌, refl, arith, true, false, none, ok}
use fragmenta.Base.Int.{pos}
use fragmenta.Base.Map.{insert}
use fragmenta.Base.Bytes.{be_bytes, le_bytes}
use fragmenta.Store.Header.{initialize_header, encode_int64}
use fragmenta.Base.Int.{to_unsigned}
use fragmenta.Store.Metadata
use fragmenta.Store.Metadata.{new_metadata_manager, load_metadata}
use fragmenta.Store.Container.{Container, Creation, new_fragmenta, initialize_components}
use fragmenta.Store.Container.{commit, new_fragmenta_from_existing}
use fragmenta.Store.Container.Reopen.{IsContainer, new_fragmenta_from_existing-commit}

abbrev times : Creation
times = record {
  created = pos 1000;
  modified = pos 1001;
  opened = pos 1002;
  stamp = pos 1003;
  first = (pos 1004, pos 1005);
  second = (pos 1006, pos 1007);
  third = (pos 1008, pos 1009);
}

abbrev fresh : Container
fresh = new_fragmenta times 1

fresh-IsContainer : IsContainer fresh
unfolding new_fragmenta initialize_components new_metadata_manager load_metadata
    Metadata.set_metadata initialize_header insert encode_int64 be_bytes le_bytes to_unsigned
fresh-IsContainer = record {
  header = record {
    magic = refl;
    version = refl;
    flags = omega arith;
    timestamp = (omega arith, omega arith);
    last_modified = (omega arith, omega arith);
    storage_mode = omega arith;
    reserved1 = omega arith;
    reserved2 = omega arith;
    metadata_offset = omega arith;
    metadata_size = omega arith;
    block_offset = omega arith;
    block_size = omega arith;
    index_offset = omega arith;
    index_size = omega arith;
    total_size = omega arith;
    user_defined_id = refl;
    check_sum = refl;
  };
  metadata = record {
    entries = omega arith;
    distinct = omega arith;
    count = omega arith;
    offset = omega arith;
  };
  area = omega arith;
}

fresh-flags :
    (fresh.is_dirty ≡ true) × (fresh.is_read_only ≡ false) × (fresh.metadata.is_dirty ≡ true)
unfolding new_fragmenta initialize_components Metadata.set_metadata
fresh-flags = (refl, refl, refl)

new_fragmenta_from_existing-commit_example :
    ((commit (pos 2000) (pos 2001) fresh).0 ≡ none)
    × ((commit (pos 2000) (pos 2001) fresh).1.is_dirty ≡ false)
    × ((c' : Container) × (new_fragmenta_from_existing
            (pos 3000)
            true
            (commit (pos 2000) (pos 2001) fresh).1.file
          ≡ ok c')
        × (c'.header ≡ (commit (pos 2000) (pos 2001) fresh).1.header)
        × (c'.metadata.metadata ≡ fresh.metadata.metadata)
        × (c'.is_read_only ≡ false))
new_fragmenta_from_existing-commit_example =
    new_fragmenta_from_existing-commit (pos 2000) (pos 2001) (pos 3000) true fresh fresh-IsContainer
      fresh-flags.0 fresh-flags.1 fresh-flags.2 (omega arith, omega arith)
