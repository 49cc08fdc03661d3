-- ===== src/Protocol/Section.antt =====
-- The section arithmetic: `std::uint32_t`, so sums and products are cut to 32 bits.
pub mod Partition
use site_repair_cast.Common.{
  ℕ, ◌+◌, ◌-◌, ◌*◌, ◌/◌, ◌%◌, ◌^◌, Bool, true, false, not, leb, ◌==◌, if◌then◌else◌, min, Result,
  ok, err, check, ◌>>=◌, ◌>>◌, zero_section_block_count, section_id_out_of_range,
}

abbrev pub u32 : ℕ → ℕ
u32 v = v % 2 ^ 32

abbrev pub validate_section_block_count : ℕ → Result (Unit {0})
validate_section_block_count section_blocks =
    check (not (section_blocks == 0)) zero_section_block_count

unfoldable pub section_id_for_block : ℕ → ℕ → Result ℕ
section_id_for_block block_id section_blocks = do
  validate_section_block_count section_blocks
  ok (block_id / section_blocks)

unfoldable pub section_first_block : ℕ → ℕ → Result ℕ
section_first_block section_id section_blocks = do
  validate_section_block_count section_blocks
  ok (u32 (section_id * section_blocks))

unfoldable pub section_count_for_blocks : ℕ → ℕ → Result ℕ
section_count_for_blocks total_blocks section_blocks = do
  validate_section_block_count section_blocks
  ok (
      if total_blocks == 0
      then 0
      else u32 (u32 (total_blocks + section_blocks) + 2 ^ 32 - 1) / section_blocks)

unfoldable pub section_block_count : ℕ → ℕ → ℕ → Result ℕ
unfolding section_first_block
section_block_count total_blocks section_id section_blocks = do
  validate_section_block_count section_blocks
  first ← section_first_block section_id section_blocks
  check (not (leb total_blocks first)) section_id_out_of_range
  ok (min section_blocks (total_blocks - first))
