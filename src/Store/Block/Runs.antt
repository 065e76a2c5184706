-- ===== src/Store/Block/Runs.antt =====
-- Theorems of the block manager at concrete inputs.
use fragmenta.Base.{err, ok}
use fragmenta.Store.Block.Reading.{search, out_of_fuel, read_block}
use fragmenta.Store.Block.Reading.Search.{search_ends}
use fragmenta.Store.Block.Reading.Written.{here, more, read_block-write_block}
use fragmenta.Store.Block.Ids.{read}
use fragmenta.Store.Block.Bytes.{write_block-content}
use fragmenta.Base.{drop, length, ◌++◌, ◌+◌}
use fragmenta.Store.Runs.{new_header, old_file}
use fragmenta.Base.{true, some, none}
use fragmenta.Base.Map.{nat_eq, lookup}
use fragmenta.Base.{◌≢◌, ◌<◌, List}
use fragmenta.Store.Block.{BlockHeader, BlockManager, set_next, set_previous, delete_block}
use fragmenta.Store.Block.{
  new_block_manager, next_id, write_block, store_block, take_id, new_block, block_position,
}
use fragmenta.Base.Map.{insert}
use fragmenta.Store.Disk.{zeros}
use fragmenta.Store.Block.Chain.{IsBetween, delete_block-links}
use fragmenta.Store.Block.Ids
use fragmenta.Store.Block.Ids.{start, deleted, written, next_id-absent}
use fragmenta.Base.{ℕ, ◌≡◌, refl, arith, [], ◌∷◌}
use fragmenta.Base.Int.{pos}
use fragmenta.Store.Header.{initialize_header}

abbrev middle : BlockHeader
middle = record {
  block_id = 2;
  block_type = 0;
  flags = 0;
  reserved = 0;
  size = 10;
  checksum = [];
  previous_block = 1;
  next_block = 3;
  timestamp = pos 0;
}

abbrev first : BlockHeader
first = record middle { block_id = 1; previous_block = 0; next_block = 2 }

abbrev last : BlockHeader
last = record middle { block_id = 3; previous_block = 2; next_block = 0 }

abbrev three_blocks : BlockManager
three_blocks = record {
  file = old_file;
  next_block_id = 3;
  block_map = (1, first) ∷ (2, middle) ∷ (3, last) ∷ [];
  free_list = [];
  block_cache = [];
  is_dirty = true;
  header = new_header;
}

three_blocks-IsBetween : IsBetween three_blocks.block_map 2 middle first last
unfolding lookup
three_blocks-IsBetween = record {
  here = refl;
  left = refl;
  right = refl;
  some_left = omega arith;
  some_right = omega arith;
  not_left = omega arith;
  not_right = omega arith;
  differ = omega arith;
}

delete_block-links_example :
    (lookup 1 (delete_block 2 three_blocks).1.block_map ≡ some (set_next 3 first))
    × (lookup 3 (delete_block 2 three_blocks).1.block_map ≡ some (set_previous 1 last))
    × (lookup 2 (delete_block 2 three_blocks).1.block_map ≡ none)
    × ((key : ℕ)
        → key ≢ 2
        → key ≢ 1
        → key ≢ 3
        → lookup key (delete_block 2 three_blocks).1.block_map ≡ lookup key three_blocks.block_map)
delete_block-links_example =
    delete_block-links three_blocks 2 middle first last three_blocks-IsBetween

abbrev blank_sum : List ℕ → List ℕ
blank_sum bytes = zeros 16

abbrev one_block : BlockManager
one_block =
    (write_block blank_sum (pos 5) (7 ∷ 8 ∷ []) none (new_block_manager old_file new_header)).1

abbrev emptied : BlockManager
emptied = (delete_block 1 one_block).1

one_block-id : (new_block_manager old_file new_header).next_block_id ≡ 0
unfolding new_block_manager
one_block-id = refl

emptied-ids : (emptied.next_block_id ≡ 1) × (emptied.free_list ≡ 1 ∷ [])
unfolding delete_block new_block_manager lookup write_block store_block take_id next_id new_block
    insert block_position initialize_header
emptied-ids = (refl, refl)

next_id-absent_example :
    (0 < next_id emptied.free_list emptied.next_block_id)
    × (lookup (next_id emptied.free_list emptied.next_block_id) emptied.block_map ≡ none)
next_id-absent_example =
    next_id-absent
      (Ids.next
        (Ids.next (start old_file new_header)
          (written blank_sum (pos 5) (7 ∷ 8 ∷ []) none _ (omega (arith, one_block-id))))
        (deleted 1 _))
      (omega (arith, emptied-ids.0))

abbrev short_bytes : List ℕ
short_bytes = 7 ∷ 8 ∷ []

fresh_position : block_position (new_block_manager old_file new_header).header ≡ 256
unfolding new_block_manager block_position initialize_header
fresh_position = refl

write_block-content_example :
    drop
      (block_position (new_block_manager old_file new_header).header + 44)
      (write_block blank_sum
        (pos 5)
        short_bytes
        none
        (new_block_manager old_file new_header)).1.file.content
    ≡ short_bytes
      ++ drop
          (block_position (new_block_manager old_file new_header).header + 44 + length short_bytes)
          (new_block_manager old_file new_header).file.content
write_block-content_example =
    write_block-content blank_sum (pos 5) short_bytes none (new_block_manager old_file new_header)
      refl refl (omega (arith, fresh_position))

search_ends_example : search 4 three_blocks ≢ err out_of_fuel
search_ends_example = search_ends 4 three_blocks (omega arith)

written_well :
    (write_block blank_sum (pos 5) short_bytes none (new_block_manager old_file new_header)).0
    ≡ none
unfolding write_block new_block_manager store_block block_position initialize_header take_id
written_well = refl

abbrev later_on : BlockManager
later_on = (read_block blank_sum 1 (delete_block 7 one_block).1).1

first_id :
    next_id
      (new_block_manager old_file new_header).free_list
      (new_block_manager old_file new_header).next_block_id
    ≡ 1
unfolding next_id new_block_manager
first_id = refl

read_block-write_block_example :
    read_block blank_sum
      (next_id
        (new_block_manager old_file new_header).free_list
        (new_block_manager old_file new_header).next_block_id)
      later_on
    ≡ (ok short_bytes, later_on)
read_block-write_block_example =
    read_block-write_block blank_sum blank_sum (pos 5) short_bytes none (start old_file new_header)
      (omega (arith, one_block-id)) written_well
      (more (more here (deleted 7 one_block) (omega (arith, first_id))) (read blank_sum 1 _) tt)
