-- ===== src/Protocol/Bitmap.antt =====
-- The missing-block bitmap: block `i` is bit `i % 8` of byte `i / 8`.
pub mod Bytes
pub mod Laws
use Prim.Native.Nat.{bit_and, bit_or}
use site_repair_cast.Common.{
  ℕ, ◌+◌, ◌/◌, ◌%◌, ◌^◌, Bool, not, ltb, ◌==◌, List, get_or, set, length, Result, ok, check, ◌>>=◌,
  ◌>>◌, bitmap_index_out_of_range,
}

-- `byte&static_cast<std::uint8_t>(1U<<bit)` against 0, and `byte|=` of it.
abbrev pub test_bit : ℕ → ℕ → Bool
test_bit byte bit = not (bit_and byte (2 ^ bit % 256) == 0)

abbrev pub set_bit : ℕ → ℕ → ℕ
set_bit byte bit = bit_or byte (2 ^ bit % 256)

unfoldable pub bitmap_test : List ℕ → ℕ → Result Bool
bitmap_test bitmap block_id = do
  check (ltb (block_id / 8) (length bitmap)) bitmap_index_out_of_range
  ok (test_bit (get_or bitmap (block_id / 8) 0) (block_id % 8))

unfoldable pub bitmap_set : List ℕ → ℕ → Result (List ℕ)
bitmap_set bitmap block_id = do
  check (ltb (block_id / 8) (length bitmap)) bitmap_index_out_of_range
  ok (set bitmap (block_id / 8) (set_bit (get_or bitmap (block_id / 8) 0) (block_id % 8)))

-- In `std::size_t`, where the sum does not wrap.
unfoldable pub bitmap_size_for_blocks : ℕ → ℕ
bitmap_size_for_blocks total_blocks = (total_blocks + 7) / 8
