-- ===== src/Receiver/Start.antt =====
-- FILE_META on a receiver: the name check, `load_receiver_state` and `initialize_transfer`.
pub mod Validity
pub mod Names
pub mod Resume
use site_repair_cast.Common.{
  none, some, inconsistent_block_count, truncate_failed, ltb, unsupported_block_size,
  initialize_failed, file_name_mismatch, ◌/◌, path_components, unsupported_section,
  another_transfer_active, true, ◌-◌, length, invalid_received_file_name, err, ◌^◌, ◌||◌, ◌&&◌, suc,
  [], insufficient_space, not, open_failed, false, ◌+◌, ok, ◌==◌, read_failed, if◌then◌else◌,
  replicate, Bool, Result, ◌∷◌, Option, ℕ, List,
}
use site_repair_cast.FileIo.{Contents}
use site_repair_cast.Protocol.Control.Proxy.{FileMetaMessage}
use site_repair_cast.Protocol.Control.Receiver.{encode_meta_ready}
use site_repair_cast.Protocol.Packet.{payload_limit, meta, MetaPacket}
use site_repair_cast.Receiver.Machine.{
  lift, put_transfer, at_transfer, return, throw, modify, same_name, SavedState, Action, StoredFile,
  send_frame, call, System, ◌>>=◌, ◌>>◌,
}
use site_repair_cast.Receiver.Report.{send_receiver_complete}
use site_repair_cast.Receiver.State.{u64, TransferState}

-- `std::filesystem::path::filename`: what stands behind the last separator.
unfoldable pub filename_from : List ℕ → List ℕ → List ℕ
filename_from last [] = last
filename_from last (c ∷ name) = if c == 47 then filename_from name name else filename_from last name

unfoldable pub safe_received_file_name : List ℕ → Result (List ℕ)
unfolding filename_from
safe_received_file_name file_name =
    let safe_name = filename_from file_name file_name in
    if same_name safe_name [] || same_name safe_name (46 ∷ []) || same_name safe_name (46 ∷ 46 ∷ [])
    then err invalid_received_file_name
    else if not (same_name safe_name file_name)
    then err path_components
    else ok safe_name

-- `std::count` of the marks that are 1.
unfoldable pub count_marks : List ℕ → ℕ
count_marks [] = 0
count_marks (r ∷ rs) = if r == 1 then suc (count_marks rs) else count_marks rs

-- The text of no marks at all is not read back, since `>>` finds no word.
unfoldable pub fits_meta : MetaPacket → StoredFile → SavedState → Bool
unfolding count_marks
fits_meta m part saved =
    part.size == m.file_size
    && saved.transfer_id == m.common.transfer_id
    && saved.file_size == m.file_size
    && saved.total_blocks == m.total_blocks
    && saved.section_block_count == m.section_block_count
    && same_name saved.file_name m.file_name
    && same_name saved.sha256 m.sha256
    && length saved.received == m.total_blocks
    && count_marks saved.received == saved.received_count
    && not (length saved.received == 0)

unfoldable pub load_from :
    System
    → MetaPacket
    → Option StoredFile
    → Option SavedState
    → Action (Option (StoredFile × SavedState))
unfolding fits_meta
load_from sys m (some part) (some saved) w =
    if sys.fails w.calls || not (fits_meta m part saved)
    then (ok none, record w { calls = w.calls + 1 })
    else (ok (some (part, saved)), record w { calls = w.calls + 1 })
load_from sys m (some part) none w = (ok none, w)
load_from sys m none saved w = (ok none, w)

-- The temporary file and the state that a transfer goes on from, if both are there, can be read
-- and fit the metadata.
unfoldable pub load_receiver_state : System → MetaPacket → Action (Option (StoredFile × SavedState))
unfolding load_from
load_receiver_state sys m w =
    load_from sys m (w.parts m.file_name m.common.transfer_id)
      (w.states m.file_name m.common.transfer_id) w

-- `(size+block_size-1)/block_size` in 64 bits, and the test that it is the number of blocks.
unfoldable pub blocks_match : ℕ → ℕ → ℕ → Bool
blocks_match file_size block_size total_blocks =
    let expected_blocks = u64 (file_size + (block_size + 2 ^ 64 - 1)) / block_size in
    ltb expected_blocks (2 ^ 32) && expected_blocks == total_blocks

-- The transfer before its state is loaded.
abbrev pub fresh_transfer : MetaPacket → TransferState
fresh_transfer m = record {
  meta = m;
  output = λ _. 0;
  received = replicate m.total_blocks 0;
  received_count = 0;
  duplicate_count = 0;
  rejected_count = 0;
  intentional_drop_count = 0;
  active_section_id = none;
  last_end_round = none;
  last_reported_round = none;
  awaiting_complete_ack = false;
  final_sha_failed = false;
  intentionally_dropped_blocks = [];
}

abbrev pub resumed : TransferState → Option (StoredFile × SavedState) → TransferState
resumed s none = s
resumed s (some (part, saved)) = record s {
  output = part.contents;
  received = saved.received;
  received_count = saved.received_count;
}

abbrev pub durable_part : Option (StoredFile × SavedState) → Contents
durable_part none = λ _. 0
durable_part (some (part, saved)) = part.durable

-- `open`, which empties the file unless a state was loaded, and `ftruncate`.
unfoldable pub open_output :
    System → TransferState → Option (StoredFile × SavedState) → Action (Unit {0})
unfolding call
open_output sys s loaded = do
  call sys open_failed
  modify (λ w. record w {
    transfer = some (resumed s loaded);
    output_open = true;
    durable = durable_part loaded;
    parts = at_transfer s.meta.file_name s.meta.common.transfer_id none w.parts;
  })
  call sys truncate_failed

-- The metadata has passed the test of the caller, so that these of `initialize_transfer` fail for a
-- section size of 0 only.
unfoldable pub initialize_transfer : System → MetaPacket → Action Bool
unfolding load_receiver_state open_output blocks_match
initialize_transfer sys m =
    if not (m.block_size == payload_limit)
      || m.section_block_count == 0
      || not (blocks_match m.file_size m.block_size m.total_blocks)
    then return false
    else do
      put_transfer (fresh_transfer m)
      loaded ← load_receiver_state sys m
      put_transfer (resumed (fresh_transfer m) loaded)
      open_output sys (fresh_transfer m) loaded
      return true

abbrev pub meta_of : FileMetaMessage → List ℕ → MetaPacket
meta_of message safe_name = record {
  common = record { type = meta; transfer_id = message.transfer_id };
  file_size = message.file_size;
  block_size = message.block_size;
  total_blocks = message.total_blocks;
  section_block_count = message.section_block_count;
  file_name = safe_name;
  sha256 = message.sha256;
}

-- A FILE_META that comes again is answered from the state at hand.
unfoldable pub repeat_file_meta :
    System → TransferState → FileMetaMessage → List ℕ → Action (Unit {0})
unfolding send_frame send_receiver_complete
repeat_file_meta sys s message safe_name =
    if not (s.meta.common.transfer_id == message.transfer_id)
    then throw another_transfer_active
    else if not (same_name s.meta.file_name safe_name)
    then throw file_name_mismatch
    else if s.awaiting_complete_ack
    then send_receiver_complete sys message.transfer_id s.meta.file_size s.meta.sha256
    else send_frame sys (encode_meta_ready (record { transfer_id = message.transfer_id }))

-- With no transfer open. The three calls look at the temporary file and at the room in the directory.
unfoldable pub start_transfer : System → FileMetaMessage → List ℕ → Action (Unit {0})
unfolding initialize_transfer send_frame call
start_transfer sys message safe_name = do
  call sys read_failed
  call sys insufficient_space
  call sys insufficient_space
  started ← initialize_transfer sys (meta_of message safe_name)
  (if started
      then (do
        modify (λ w. record w { drain = record (w.drain) { draining = false; drain_timer = none } })
        send_frame sys (encode_meta_ready (record { transfer_id = message.transfer_id })))
      else throw initialize_failed)

unfoldable pub answer_file_meta :
    System → FileMetaMessage → List ℕ → Option TransferState → Action (Unit {0})
unfolding repeat_file_meta start_transfer
answer_file_meta sys message safe_name (some s) = repeat_file_meta sys s message safe_name
answer_file_meta sys message safe_name none = start_transfer sys message safe_name

unfoldable pub on_file_meta : System → FileMetaMessage → Action (Unit {0})
unfolding safe_received_file_name answer_file_meta blocks_match
on_file_meta sys message =
    if not (message.section_id == 0)
    then throw unsupported_section
    else if not (message.block_size == payload_limit)
    then throw unsupported_block_size
    else if not (blocks_match message.file_size message.block_size message.total_blocks)
    then throw inconsistent_block_count
    else (lift (safe_received_file_name message.file_name) >>= λ safe_name w.
        answer_file_meta sys message safe_name w.transfer w)
