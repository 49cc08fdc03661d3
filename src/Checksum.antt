-- ===== src/Checksum.antt =====
-- src/checksum.cpp: the table-driven CRC-32. The digest of a file comes from OpenSSL and is a
-- parameter where it is used.
pub mod Bounds
use Prim.Native.Nat.{bit_and, bit_xor}
use site_repair_cast.Common.{ℕ, zero, suc, ◌+◌, ◌/◌, List, [], ◌∷◌, get_or, ◌==◌, if◌then◌else◌}

-- One round of the loop over the bits: `(value&1U)?(0xedb88320U^(value>>1U)):(value>>1U)`.
pub crc_bit : ℕ → ℕ
crc_bit value = if bit_and value 1 == 0 then value / 2 else bit_xor 0xedb8_8320 (value / 2)

pub crc_bits : ℕ → ℕ → ℕ
crc_bits zero value = value
crc_bits (suc n) value = crc_bits n (crc_bit value)

-- The entries from `i` on.
crc_entries : ℕ → ℕ → List ℕ
crc_entries zero i = []
crc_entries (suc n) i = crc_bits 8 i ∷ crc_entries n (i + 1)

pub crc_table : List ℕ
unfolding crc_entries crc_bits crc_bit
crc_table = crc_entries 256 0

-- `table[(value^data[i])&0xffU]^(value>>8U)` over the bytes.
pub crc_loop : List ℕ → List ℕ → ℕ → ℕ
crc_loop table [] value = value
crc_loop table (b ∷ bs) value =
    crc_loop table bs (bit_xor (get_or table (bit_and (bit_xor value b) 0xff) 0) (value / 256))

unfoldable pub crc32 : List ℕ → ℕ
unfolding crc_table crc_loop
crc32 bytes = bit_xor (crc_loop crc_table bytes 0xffff_ffff) 0xffff_ffff
