-- ===== src/Protocol/Section/Partition.antt =====
-- The sections of a file as runs of blocks.
use mathlib.Core.Path.{subst}
use native.Mathlib.Decide.{dec_lt}
use native.Mathlib.Nat.{div-add-mod', mod-lt, div-eq_of_lt, div-eq_of_lt-le}
use site_repair_cast.Common.{suc, ℕ, ◌+◌, ◌-◌, ◌*◌, ◌/◌, ◌^◌, ◌<◌, ◌≤◌, ◌≡◌, ◌↔◌, arith, ok, min}
use site_repair_cast.Protocol.Section.{
  u32, section_id_for_block, section_first_block, section_count_for_blocks, section_block_count,
}

-- `b` lies in the run of blocks that `first` and `count` describe.
abbrev pub InRun : ℕ → ℕ → ℕ → Type 0
InRun first count b = (first ≤ b) × (b < first + count)

-- A quotient times its divisor, and what is left.
pub quotient_bounds : (b n : ℕ) → 0 < n → (b / n * n ≤ b) × (b < b / n * n + n)
quotient_bounds b n h = omega (arith, div-add-mod' b n, mod-lt b h)

mul_mono : (a b n : ℕ) → a ≤ b → a * n ≤ b * n
mul_mono a b n h = grind arith

pub quotient_unique : (s b n : ℕ) → s * n ≤ b → b < s * n + n → b / n ≡ s
quotient_unique s b n lo hi = div-eq_of_lt-le n lo (omega arith)

module _ (total section_blocks : ℕ) (positive : 0 < section_blocks) (fits : total < 2 ^ 32) where
  -- If sections are not empty and the block count is below 2^32, every block of the file has a
  -- section, which is a section of the file, and lies in the run of blocks that the section's first
  -- block and block count describe.
  pub block_in_its_section :
      (b : ℕ)
      → b < total
      → (s first count : ℕ) × (section_id_for_block b section_blocks ≡ ok s)
        × (section_first_block s section_blocks ≡ ok first)
        × (section_block_count total s section_blocks ≡ ok count)
        × InRun first count b
  unfolding section_id_for_block section_first_block section_block_count
  block_in_its_section b inside =
      let n = section_blocks in
      let q = quotient_bounds b n positive in
      (
        b / n,
        b / n * n,
        min n (total - b / n * n),
        ground arith,
        ground (arith, q),
        ground (arith, q),
        omega (arith, q),
      )

  -- If sections are not empty, the block count is below 2^32 and the product of the section id and
  -- the section size is below 2^32, every block in the run of a section is a block of the file and
  -- belongs to that section.
  pub section_of_run_block :
      (b s first count : ℕ)
      → s * section_blocks < 2 ^ 32
      → section_first_block s section_blocks ≡ ok first
      → section_block_count total s section_blocks ≡ ok count
      → InRun first count b
      → (b < total) × (section_id_for_block b section_blocks ≡ ok s)
  unfolding section_id_for_block section_first_block section_block_count
  section_of_run_block b s first count nowrap e₁ e₂ run =
      ground (arith, quotient_unique s b section_blocks)

  section_count_below :
      (s : ℕ)
      → total + section_blocks ≤ 2 ^ 32
      → (count : ℕ) × (section_count_for_blocks total section_blocks ≡ ok count)
        × ((s < count) ↔ (s * section_blocks < total))
  unfolding section_count_for_blocks
  section_count_below s nowrap = elim (dec_lt 0 total) [
    | yes some_blocks ↦ (
      (total + section_blocks - 1) / section_blocks,
      ground arith,
      (
        (λ below. omega (
          arith,
          q,
          mul_mono (suc s) ((total + section_blocks - 1) / section_blocks) section_blocks below,
        )),
        (λ inside. elim (dec_lt s ((total + section_blocks - 1) / section_blocks)) [
          | yes below ↦ below
          | no beyond ↦ absurd (
              omega (
                arith,
                q,
                mul_mono ((total + section_blocks - 1) / section_blocks) s section_blocks
                    (omega arith),
              ))
        ]),
      ),
    )
    | no empty ↦ (0, ground arith, (omega arith, omega arith))
  ]
    where
      q :
          ((total + section_blocks - 1) / section_blocks * section_blocks
            ≤ total + section_blocks - 1)
          × (total + section_blocks - 1
              < (total + section_blocks - 1) / section_blocks * section_blocks + section_blocks)
      q = quotient_bounds (total + section_blocks - 1) section_blocks positive

  -- If sections are not empty, the block count is below 2^32, the sum of blocks and section size is
  -- at most 2^32 and the product of the section id and the section size is below 2^32, the section
  -- count is returned, and an id is below it exactly when the section's first block is a block of
  -- the file.
  pub section_count_iff :
      (s first : ℕ)
      → total + section_blocks ≤ 2 ^ 32
      → s * section_blocks < 2 ^ 32
      → section_first_block s section_blocks ≡ ok first
      → (count : ℕ) × (section_count_for_blocks total section_blocks ≡ ok count)
        × ((s < count) ↔ (first < total))
  unfolding section_first_block
  section_count_iff s first nowrap inside e =
      let (count, returned, iff) = section_count_below s nowrap in
      let start : s * section_blocks ≡ first = ground arith in
      (count, returned, subst (λ (f : ℕ). (s < count) ↔ (f < total)) start iff)

-- A file with blocks, fewer than the section size, where block count and section size sum to more
-- than 2^32, is counted to have no section at all.
pub wrapped_section_count :
    (total section_blocks : ℕ)
    → 0 < total
    → total < section_blocks
    → section_blocks < 2 ^ 32
    → 2 ^ 32 < total + section_blocks
    → section_count_for_blocks total section_blocks ≡ ok 0
unfolding section_count_for_blocks
wrapped_section_count total n h₁ h₂ h₃ h₄ =
    let small : u32 (u32 (total + n) + 2 ^ 32 - 1) < n = omega arith in
    ground (arith, div-eq_of_lt small)
