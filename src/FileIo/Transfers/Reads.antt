-- ===== src/FileIo/Transfers/Reads.antt =====
-- The loop of `read_block` over `pread` with short transfers.
use native.Mathlib.Decide.{dec_lt}
use site_repair_cast.Common.{
  ◌*◌, ◌-◌, min, zero, suc, ◌∙◌, ok, arith, some, ap, ◌≡◌, [], All, ◌++◌, ◌∷◌, ◌+◌, ◌≤◌, ℕ, List,
}
use site_repair_cast.FileIo.{block_bytes, read_block, slice, Contents}
use site_repair_cast.FileIo.Laws.{length-slice}
use site_repair_cast.FileIo.Transfers.{
  read_block_from, failed, interrupted, moved, read_loop, Answer,
}
use site_repair_cast.Protocol.Packet.{payload_limit}

-- No answer is an error or an end of file.
abbrev pub Moves : Answer → Type 0
Moves (moved n) = 1 ≤ n
Moves interrupted = Unit {0}
Moves failed = ⊥

-- How many of the answers move bytes.
abbrev pub moves : List Answer → ℕ
moves [] = 0
moves (moved n ∷ answers) = moves answers + 1
moves (interrupted ∷ answers) = moves answers
moves (failed ∷ answers) = moves answers

slice-append :
    (file : Contents) (offset m n : ℕ)
    → slice file offset m ++ slice file (offset + m) n ≡ slice file offset (m + n)
slice-append file offset zero n =
    ap (λ (k : ℕ). slice file k n) (omega arith) ∙ ap (slice file offset) (omega arith)
slice-append file offset (suc m) n =
    ap (◌∷◌ (file offset)) (
      ap (λ (k : ℕ). slice file (offset + 1) m ++ slice file k n) (omega arith)
      ∙ slice-append file (offset + 1) m n)
    ∙ ap (slice file offset) {x = suc (m + n)} (omega arith)

read_loop_lem :
    (file : Contents) (offset wanted got : ℕ) (answers : List Answer)
    → got ≤ wanted
    → All Moves answers
    → wanted ≤ got + moves answers
    → read_loop file offset wanted (slice file offset got) answers
      ≡ some (ok (slice file offset wanted))
unfolding read_loop
read_loop_lem file offset wanted got [] low each enough =
    ground (arith, length-slice file offset got, ap (slice file offset) {x = got} {y = wanted})
read_loop_lem file offset wanted got (interrupted ∷ answers) low each enough = ground (
  arith,
  length-slice file offset got,
  ap (slice file offset) {x = got} {y = wanted},
  read_loop_lem file offset wanted got answers low each.1 (omega (arith, enough)),
)
read_loop_lem file offset wanted got (failed ∷ answers) low each enough = absurd each.0
read_loop_lem file offset wanted got (moved n ∷ answers) low each enough =
    rw (length-slice file offset got) (elim (dec_lt got wanted) [
      | yes more ↦
          let count = min n (wanted - got) in
          let next : slice file offset got ++ slice file (offset + got) count
              ≡ slice file offset (got + count) =
            slice-append file offset got count in
          let some_bytes : 1 ≤ count = omega (arith, each.0, more) in
          let rest =
            read_loop_lem file offset wanted (got + count) answers (omega (arith, more)) each.1
              (omega (arith, enough, some_bytes)) in
          rw next (ground (arith, more, some_bytes, rest))
      | no all ↦ ground (arith, all, ap (slice file offset) {x = got} {y = wanted})
    ])

-- If no answer of the system is an error or an end of file and as many of them move bytes as the
-- block has, the loop that reads a block ends without an error and has read the whole block,
-- whatever the sizes of the transfers.
pub read_block_from_lem :
    (answers : List Answer) (file : Contents) (file_size block_id : ℕ)
    → All Moves answers
    → block_bytes file_size block_id ≤ moves answers
    → read_block_from answers file file_size block_id
      ≡ some (ok (read_block file file_size block_id))
unfolding read_block_from read_block
read_block_from_lem answers file file_size block_id each enough =
    let whole : read_loop file (block_id * payload_limit) (block_bytes file_size block_id) []
          answers
        ≡ some (ok (slice file (block_id * payload_limit) (block_bytes file_size block_id))) =
      read_loop_lem file (block_id * payload_limit) (block_bytes file_size block_id) 0 answers
        (omega arith) each (omega (arith, enough)) in
    rw (whole, read_block_from)
