-- ===== src/Store/Runs.antt =====
-- Theorems of the header at concrete inputs, and the header and the file that the runs of the other
-- parts start from.
use fragmenta.Base.Map.{nat_eq}
use fragmenta.Base.{ℕ, ◌+◌, ◌≡◌, refl, arith, [], ◌∷◌, ok, drop}
use fragmenta.Base.Int.{pos}
use fragmenta.Store.Disk.{File, seek, ahead}
use fragmenta.Store.Header.{Header, initialize_header, write_header, read_header}
use fragmenta.Store.Header.RoundTrip.{IsHeader, header_size, read_header-write_header}

abbrev pub new_header : Header
new_header = initialize_header (pos 1000) (pos 1001)

new_header-IsHeader : IsHeader new_header
unfolding initialize_header
new_header-IsHeader = record {
  magic = refl;
  version = refl;
  flags = omega arith;
  timestamp = (omega arith, omega arith);
  last_modified = (omega arith, omega arith);
  storage_mode = omega arith;
  reserved1 = omega arith;
  reserved2 = omega arith;
  metadata_offset = omega arith;
  metadata_size = omega arith;
  block_offset = omega arith;
  block_size = omega arith;
  index_offset = omega arith;
  index_size = omega arith;
  total_size = omega arith;
  user_defined_id = refl;
  check_sum = refl;
}

abbrev pub old_file : File
old_file = record { content = 1 ∷ 2 ∷ 3 ∷ []; pos = 2 }

read_header-write_header_example :
    (read_header (ahead (seek 0 (write_header new_header old_file))) ≡ ok new_header)
    × ((n : ℕ)
        → drop (header_size + n) (write_header new_header old_file).content
          ≡ drop (header_size + n) old_file.content)
read_header-write_header_example = read_header-write_header new_header old_file new_header-IsHeader
