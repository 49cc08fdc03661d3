-- ===== src/Receiver/Missing.antt =====
-- `make_missing_bitmap`: the blocks of a section that have not been received.
pub mod Laws
use site_repair_cast.Common.{
  replicate, ◌>>=◌, ◌==◌, ◌+◌, get_or, if◌then◌else◌, Result, ℕ, List, [], ◌∷◌, zero, suc, ok, err,
}
use site_repair_cast.Protocol.Bitmap.{bitmap_size_for_blocks, bitmap_set}
use site_repair_cast.Protocol.Section.{section_block_count, u32, section_first_block}
use site_repair_cast.Receiver.State.{TransferState}

-- One round of the loop, on the bitmap and the count.
mark_missing : List ℕ → ℕ → ℕ → List ℕ × ℕ → Result (List ℕ × ℕ)
mark_missing received first_block local_block (bitmap, missing_count) =
    if get_or received (first_block + local_block) 0 == 0
    then (do bitmap' ← bitmap_set bitmap local_block; ok (bitmap', u32 (missing_count + 1)))
    else ok (bitmap, missing_count)

-- The rounds that are left, from `local_block` on.
mark_loop : ℕ → List ℕ → ℕ → ℕ → List ℕ × ℕ → Result (List ℕ × ℕ)
unfolding mark_missing
mark_loop zero received first_block local_block acc = ok acc
mark_loop (suc left) received first_block local_block acc = do
  acc' ← mark_missing received first_block local_block acc
  mark_loop left received first_block (local_block + 1) acc'

unfoldable pub make_missing_bitmap : TransferState → ℕ → Result (List ℕ × ℕ)
unfolding mark_loop
make_missing_bitmap s section_id = do
  first_block ← section_first_block section_id s.meta.section_block_count
  section_blocks ← section_block_count s.meta.total_blocks section_id s.meta.section_block_count
  mark_loop section_blocks s.received first_block 0
      (replicate (bitmap_size_for_blocks section_blocks) 0, 0)
