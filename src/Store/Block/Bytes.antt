-- ===== src/Store/Block/Bytes.antt =====
-- Where WriteBlock puts the bytes of a block.
use fragmenta.Base.{
  ℕ, ◌+◌, ◌<◌, ◌≡◌, ◌^◌, refl, sym, ap, ◌∙◌, arith, List, [], ◌∷◌, ◌++◌, Option, Bool-cases, inl,
  inr,
}
use fragmenta.Base.{length, drop, length-append}
use fragmenta.Base.Int.{ℤ, to_unsigned}
use fragmenta.Base.Bytes.{be_bytes, length-be_bytes}
use fragmenta.Store.Disk.{File, seek, write_each, ahead, concat}
use fragmenta.Store.Disk.Laws.{write_each_lem, ahead-write, drop-append, drop-drop, length-zeros}
use fragmenta.Store.Header.{Header, word}
use fragmenta.Store.Block.{
  BlockHeader, BlockOptions, BlockManager, block_chunks, new_block, next_id,
}
use fragmenta.Store.Block.{block_position, store_block, write_block, take_id, chosen}
use mathlib.Core.List.{append_assoc, append-nil}

header_bytes : BlockHeader → List ℕ
header_bytes h =
    be_bytes 4 h.block_id
    ++ (be_bytes 1 h.block_type
        ++ (be_bytes 1 h.flags
            ++ (be_bytes 2 h.reserved
                ++ (be_bytes 4 h.size
                    ++ (h.checksum
                        ++ (be_bytes 4 h.previous_block
                            ++ (be_bytes 4 h.next_block
                                ++ be_bytes 8 (to_unsigned word h.timestamp))))))))

concat-block_chunks :
    (h : BlockHeader) (bytes rest : List ℕ)
    → concat (block_chunks h bytes) ++ rest ≡ header_bytes h ++ (bytes ++ rest)
unfolding block_chunks header_bytes
concat-block_chunks h bytes rest = simp append_assoc

length-header_bytes : (h : BlockHeader) → length h.checksum ≡ 16 → length (header_bytes h) ≡ 44
unfolding header_bytes
length-header_bytes h e = simp (length-append, length-be_bytes, e) (omega arith)

written : BlockHeader → List ℕ → ℕ → File → File
written h bytes position f = write_each (block_chunks h bytes) (seek position f)

drop-written :
    (h : BlockHeader) (bytes : List ℕ) (position : ℕ) (f : File)
    → length h.checksum ≡ 16
    → drop (position + 44) (written h bytes position f).content
      ≡ bytes ++ drop (position + 44 + length bytes) f.content
unfolding written block_chunks ahead seek
drop-written h bytes position f e =
    sym (drop-drop position 44 (written h bytes position f).content)
    ∙ ap (λ (g : File). drop 44 (drop position g.content)) (write_each_lem _ _ (seek position f))
    ∙ ap (drop 44) (ahead-write (concat (block_chunks h bytes)) (seek position f))
    ∙ ap (drop 44) (concat-block_chunks h bytes _)
    ∙ ap (λ n. drop n (header_bytes h ++ (bytes ++ behind))) (sym (length-header_bytes h e))
    ∙ drop-append (header_bytes h) (bytes ++ behind)
    ∙ ap (λ n. bytes ++ drop n f.content) whole
  where
    behind : List ℕ
    behind = drop (position + length (concat (block_chunks h bytes))) f.content

    size : length (concat (block_chunks h bytes)) ≡ 44 + length bytes
    size =
        ap length
          (sym (append-nil (concat (block_chunks h bytes))) ∙ concat-block_chunks h bytes [])
        ∙ ap length (ap (λ (b : List ℕ). header_bytes h ++ b) (append-nil bytes))
        ∙ length-append (header_bytes h) bytes
        ∙ ap (λ n. n + length bytes) (length-header_bytes h e)

    whole : position + length (concat (block_chunks h bytes)) ≡ position + 44 + length bytes
    whole = omega (arith, size)

file_kept :
    (bm : BlockManager) (free : List ℕ)
    → bm.free_list ≡ free
    → ((take_id bm).file ≡ bm.file) × ((take_id bm).header ≡ bm.header)
unfolding take_id
file_kept bm [] e = rw e (refl, refl)
file_kept bm (id ∷ ids) e = rw e (refl, refl)

stored_file :
    (h : BlockHeader) (bytes : List ℕ) (bm : BlockManager)
    → block_position bm.header < 2 ^ 63
    → (store_block h bytes bm).1.file ≡ written h bytes (block_position bm.header) bm.file
unfolding store_block written
stored_file h bytes bm small = ground arith

length-checksum :
    (md5 : List ℕ → List ℕ) (now : ℤ) (id : ℕ) (bytes : List ℕ) (options : BlockOptions)
    → length (md5 bytes) ≡ 16
    → length (new_block md5 now id bytes options).checksum ≡ 16
unfolding new_block
length-checksum md5 now id bytes options e = elim (Bool-cases options.checksum) [
  | inl c ↦ rw (new_block, c) e
  | inr c ↦ rw (new_block, c) (length-zeros 16)
]

-- WriteBlock, without a block to append to and at a position below 2 ^ 63, puts the block's bytes
-- 44 bytes behind its position; what stood behind them in the file follows them. The checksum
-- function yields 16 bytes.
pub write_block-content :
    (md5 : List ℕ → List ℕ) (now : ℤ) (bytes : List ℕ) (options : Option BlockOptions)
    (bm : BlockManager)
    → length (md5 bytes) ≡ 16
    → (chosen options).append_to_block_id ≡ 0
    → block_position bm.header < 2 ^ 63
    → drop (block_position bm.header + 44) (write_block md5 now bytes options bm).1.file.content
      ≡ bytes ++ drop (block_position bm.header + 44 + length bytes) bm.file.content
unfolding write_block
write_block-content md5 now bytes options bm sum alone small = rw (write_block, alone) placed
  where
    h : BlockHeader
    h = new_block md5 now (next_id bm.free_list bm.next_block_id) bytes (chosen options)

    kept : ((take_id bm).file ≡ bm.file) × ((take_id bm).header ≡ bm.header)
    kept = file_kept bm bm.free_list refl

    same_file :
        (store_block h bytes (take_id bm)).1.file
        ≡ written h bytes (block_position bm.header) bm.file
    same_file =
        stored_file h bytes (take_id bm) (rw kept.1 small)
        ∙ ap (λ (f : File). written h bytes (block_position (take_id bm).header) f) kept.0
        ∙ ap (λ (g : Header). written h bytes (block_position g) bm.file) kept.1

    placed :
        drop (block_position bm.header + 44) (store_block h bytes (take_id bm)).1.file.content
        ≡ bytes ++ drop (block_position bm.header + 44 + length bytes) bm.file.content
    placed =
        ap (λ (g : File). drop (block_position bm.header + 44) g.content) same_file
        ∙ drop-written h bytes (block_position bm.header) bm.file
            (length-checksum md5 now _ bytes (chosen options) sum)
