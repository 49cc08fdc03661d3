-- ===== src/FileIo.antt =====
-- include/file_io.hpp. The contents of an open file are a function from offsets to bytes.
pub mod Laws
pub mod Transfers
use site_repair_cast.Common.{
  ℕ, zero, suc, ◌+◌, ◌-◌, ◌*◌, ◌%◌, ◌^◌, List, [], ◌∷◌, length, get_or, ltb, if◌then◌else◌, min,
  ◌&&◌, leb,
}
use site_repair_cast.Protocol.Packet.{payload_limit}

abbrev pub Contents : Type 0
Contents = ℕ → ℕ

-- The `n` bytes from `offset` on.
abbrev pub slice : Contents → ℕ → ℕ → List ℕ
slice file offset zero = []
slice file offset (suc n) = file offset ∷ slice file (offset + 1) n

-- `wanted`: `file_size-offset` is in 64 bits.
abbrev pub block_bytes : ℕ → ℕ → ℕ
block_bytes file_size block_id =
    min payload_limit ((file_size + 2 ^ 64 - block_id * payload_limit) % 2 ^ 64)

pub record Block : Type 0 where
  pub offset : ℕ
  pub payload : List ℕ

-- Once the loop over `pread` has its bytes. A file that ends before them is an error there.
unfoldable pub read_block : Contents → ℕ → ℕ → Block
read_block file file_size block_id = record {
  offset = block_id * payload_limit;
  payload = slice file (block_id * payload_limit) (block_bytes file_size block_id);
}

-- Once the loop over `pwrite` has written its bytes.
unfoldable pub write_all_at : Contents → List ℕ → ℕ → Contents
write_all_at file payload offset i =
    if leb offset i && ltb (i - offset) (length payload)
    then get_or payload (i - offset) 0
    else file i
