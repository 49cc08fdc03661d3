-- ===== src/Proxy/Repair/Missing.antt =====
-- `aggregate_missing_blocks`, and the test whether a receiver can be the source of a block. The test
-- reads only bitmaps that `aggregate_missing_blocks` has read for the whole section, so that its call
-- of `bitmap_test` does not throw; an index beyond the bitmap is no block that the receiver has.
pub mod Table
use site_repair_cast.Common.{
  Result, ◌>>=◌, not, ◌||◌, ◌==◌, ◌&&◌, ◌++◌, replicate, ◌+◌, if◌then◌else◌, Option, Bool, ℕ, List,
  [], ◌∷◌, ok, err, false, none, some,
}
use site_repair_cast.Protocol.Bitmap.{bitmap_test}
use site_repair_cast.Protocol.Control.Receiver.{section_status_code}
use site_repair_cast.Protocol.Section.{u32}
use site_repair_cast.Proxy.Connection.{is_active, ReceiverConnection}
use site_repair_cast.Proxy.Status.{is_missing}

abbrev pub marked : List ℕ → ℕ → Bool
marked bitmap local_block = elim (bitmap_test bitmap local_block) [ ok b ↦ b | err _ ↦ false ]

-- A block of the bitmap that is not marked.
abbrev pub unmarked : List ℕ → ℕ → Bool
unmarked bitmap local_block = elim (bitmap_test bitmap local_block) [ ok b ↦ not b | err _ ↦ false ]

-- The bitmap of a receiver that is repaired in this round.
unfoldable pub missing_report : ReceiverConnection → Option (List ℕ)
missing_report r = elim r.status [
  | none ↦ none
  | some m ↦ if is_active r && is_missing m.status then some m.missing_bitmap else none
]

-- One receiver's bitmap along the rows of the table, from `local_block` on.
unfoldable pub add_report : ℕ → List ℕ → ℕ → List (List ℕ) → Result (List (List ℕ))
add_report receiver_index bitmap local_block [] = ok []
add_report receiver_index bitmap local_block (row ∷ rows) = do
  set ← bitmap_test bitmap local_block
  rest ← add_report receiver_index bitmap (local_block + 1) rows
  ok ((if set then row ++ (receiver_index ∷ []) else row) ∷ rest)

add_reports : ℕ → List ReceiverConnection → List (List ℕ) → Result (List (List ℕ))
add_reports index [] table = ok table
add_reports index (r ∷ rs) table = do
  table' ← elim (missing_report r) [
    | none ↦ ok table
    | some bitmap ↦ add_report index bitmap 0 table
  ]
  add_reports (index + 1) rs table'

-- For each block of the section the receivers that miss it, in their order.
unfoldable pub aggregate_missing_blocks : List ReceiverConnection → ℕ → Result (List (List ℕ))
unfolding add_reports
aggregate_missing_blocks receivers section_blocks =
    add_reports 0 receivers (replicate section_blocks [])

-- The lambda `source_has_block` on a receiver, for the transfer, section and round of the repair.
unfoldable pub source_has_block : ℕ → ℕ → ℕ → ReceiverConnection → ℕ → Bool
source_has_block transfer_id section_id round_id r local_block =
    is_active r && r.control_open && r.status_received && (elim r.status [
      | none ↦ false
      | some m ↦
          m.transfer_id == transfer_id
          && m.section_id == section_id
          && u32 (m.round_id + 1) == round_id
          && (section_status_code m.status == 2
              || (is_missing m.status && unmarked m.missing_bitmap local_block))
    ])
