-- ===== src/Tests/Files.antt =====
-- A block of three bytes read and written in two transfers, with an interruption between them.
use site_repair_cast.Common.{arith, ℕ, ◌≡◌, ◌%◌, List, [], ◌∷◌, ok, some}
use site_repair_cast.FileIo.{write_all_at, read_block, Contents}
use site_repair_cast.FileIo.Transfers.{interrupted, moved, write_loop, Answer, read_block_from}
use site_repair_cast.FileIo.Transfers.Reads.{read_block_from_lem}
use site_repair_cast.FileIo.Transfers.Writes.{write_loop_lem}

abbrev answers : List Answer
answers = moved 1 ∷ interrupted ∷ moved 5 ∷ moved 1 ∷ []

abbrev contents : Contents
contents i = i % 256

read_block_from_lem_example :
    read_block_from answers contents 3 0 ≡ some (ok (read_block contents 3 0))
read_block_from_lem_example =
    read_block_from_lem answers contents 3 0 (omega arith, (tt, (omega arith, (omega arith, tt))))
      (omega arith)

write_loop_lem_example :
    (file : Contents) × (write_loop (7 ∷ 8 ∷ 9 ∷ []) 4 0 contents answers ≡ some (ok file))
    × ((i : ℕ) → file i ≡ write_all_at contents (7 ∷ 8 ∷ 9 ∷ []) 4 i)
write_loop_lem_example =
    write_loop_lem (7 ∷ 8 ∷ 9 ∷ []) 4 contents answers
      (omega arith, (tt, (omega arith, (omega arith, tt)))) (omega arith)
