-- ===== src/Tests/Sections.antt =====
-- A file of 130 blocks in sections of 64.
use site_repair_cast.Common.{ℕ, ok, ◌≡◌, ◌<◌, ◌↔◌, refl, arith}
use site_repair_cast.Protocol.Section.{
  section_id_for_block, section_first_block, section_count_for_blocks, section_block_count,
}
use site_repair_cast.Protocol.Section.Partition.{
  InRun, block_in_its_section, section_of_run_block, section_count_iff, wrapped_section_count,
}

block_in_its_section_example :
    (s first count : ℕ) × (section_id_for_block 129 64 ≡ ok s)
    × (section_first_block s 64 ≡ ok first)
    × (section_block_count 130 s 64 ≡ ok count)
    × InRun first count 129
block_in_its_section_example =
    block_in_its_section 130 64 (omega arith) (omega arith) 129 (omega arith)

first_block : section_first_block 2 64 ≡ ok 128
unfolding section_first_block
first_block = refl

last_section : section_block_count 130 2 64 ≡ ok 2
unfolding section_block_count
last_section = refl

section_of_run_block_example : (129 < 130) × (section_id_for_block 129 64 ≡ ok 2)
section_of_run_block_example =
    section_of_run_block 130 64 (omega arith) (omega arith) 129 2 128 2 (omega arith) first_block
      last_section (omega arith, omega arith)

section_count_iff_example :
    (count : ℕ) × (section_count_for_blocks 130 64 ≡ ok count) × ((2 < count) ↔ (128 < 130))
section_count_iff_example =
    section_count_iff 130 64 (omega arith) (omega arith) 2 128 (omega arith) (omega arith)
      first_block

wrapped_section_count_example : section_count_for_blocks 2 4_294_967_295 ≡ ok 0
wrapped_section_count_example =
    wrapped_section_count 2 4_294_967_295 (omega arith) (omega arith) (omega arith) (omega arith)

-- The product 2^26 * 64 wraps to 0, so this id far behind the file is taken for its first section.
far_section : section_block_count 130 67_108_864 64 ≡ ok 64
unfolding section_block_count
far_section = refl
