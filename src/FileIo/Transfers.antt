-- ===== src/FileIo/Transfers.antt =====
-- The loops of `read_block` and `write_all_at` over `pread` and `pwrite`. The system's answers are a
-- list; a call moves at most the bytes that it is asked for. A loop that waits for the next answer
-- has no value.
pub mod Reads
pub mod Writes
use site_repair_cast.Common.{
  ◌∷◌, [], ◌++◌, ◌-◌, ◌+◌, ok, err, none, some, no_progress, drop, take, unexpected_eof, ◌==◌, min,
  write_failed, read_failed, length, ◌*◌, ltb, if◌then◌else◌, Result, Option, List, ℕ,
}
use site_repair_cast.FileIo.{write_all_at, block_bytes, Block, Contents, slice}
use site_repair_cast.Protocol.Packet.{payload_limit}

pub data Answer : Type 0 where
  moved : ℕ → Answer
  interrupted failed : Answer

unfoldable pub read_loop : Contents → ℕ → ℕ → List ℕ → List Answer → Option (Result (List ℕ))
read_loop file offset wanted payload [] =
    if ltb (length payload) wanted then none else some (ok payload)
read_loop file offset wanted payload (interrupted ∷ answers) =
    let rest = read_loop file offset wanted payload answers in
    if ltb (length payload) wanted then rest else some (ok payload)
read_loop file offset wanted payload (failed ∷ answers) =
    if ltb (length payload) wanted then some (err read_failed) else some (ok payload)
read_loop file offset wanted payload (moved n ∷ answers) =
    let count = min n (wanted - length payload) in
    let rest =
      read_loop file offset wanted (payload ++ slice file (offset + length payload) count)
        answers in
    if ltb (length payload) wanted
    then if count == 0 then some (err unexpected_eof) else rest
    else some (ok payload)

unfoldable pub read_block_from : List Answer → Contents → ℕ → ℕ → Option (Result Block)
unfolding read_loop
read_block_from answers file file_size block_id =
    let offset = block_id * payload_limit in
    elim (read_loop file offset (block_bytes file_size block_id) [] answers) [
      | none ↦ none
      | some (ok payload) ↦ some (ok (record { offset = offset; payload = payload }))
      | some (err e) ↦ some (err e)
    ]

-- `write_all_at` with `written` bytes behind it.
unfoldable pub write_loop : List ℕ → ℕ → ℕ → Contents → List Answer → Option (Result Contents)
write_loop payload offset written file [] =
    if ltb written (length payload) then none else some (ok file)
write_loop payload offset written file (interrupted ∷ answers) =
    let rest = write_loop payload offset written file answers in
    if ltb written (length payload) then rest else some (ok file)
write_loop payload offset written file (failed ∷ answers) =
    if ltb written (length payload) then some (err write_failed) else some (ok file)
write_loop payload offset written file (moved n ∷ answers) =
    let count = min n (length payload - written) in
    let rest =
      write_loop payload offset (written + count)
        (write_all_at file (take count (drop written payload)) (offset + written)) answers in
    if ltb written (length payload)
    then if count == 0 then some (err no_progress) else rest
    else some (ok file)
