-- ===== src/Receiver/Report.antt =====
-- The end of a drain and of a transfer: `finalize_transfer`, `send_section_status` and
-- `finish_drain_and_report`.
pub mod Validity
pub mod Durable
pub mod Closing
pub mod CrashSafe
pub mod Publish
use site_repair_cast.Common.{
  none, some, no_active_section, true, read_failed, ◌+◌, [], ◌==◌, rename_failed, not,
  if◌then◌else◌, Option, List, ℕ,
}
use site_repair_cast.FileIo.{slice}
use site_repair_cast.Protocol.Control.Receiver.{
  failed, complete, encode_section_status, missing, encode_receiver_complete, SectionStatusCode,
}
use site_repair_cast.Receiver.Machine.{
  Machine, same_name, throw, at_transfer, return, at_name, put_transfer, close_output, lift, modify,
  Action, save_receiver_state, send_frame, sync_output, call, System, ◌>>=◌, ◌>>◌,
}
use site_repair_cast.Receiver.Missing.{make_missing_bitmap}
use site_repair_cast.Receiver.State.{TransferState}

-- `sha256_file` of the temporary file.
abbrev pub digest_of : System → TransferState → List ℕ
digest_of sys s = sys.sha256 (slice s.output 0 s.meta.file_size)

-- The rename over the output path.
abbrev pub move_output : TransferState → Machine → Machine
move_output s w = record w {
  outputs = at_name s.meta.file_name (w.parts s.meta.file_name s.meta.common.transfer_id) w.outputs;
  parts = at_transfer s.meta.file_name s.meta.common.transfer_id none w.parts;
}

-- The removal of the state file, whose failure is ignored.
abbrev pub remove_state : System → TransferState → Machine → Machine
remove_state sys s w = if sys.fails w.calls then record w { calls = w.calls + 1 } else record w {
  calls = w.calls + 1;
  states = at_transfer s.meta.file_name s.meta.common.transfer_id none w.states;
}

unfoldable pub publish : System → TransferState → Action (Unit {0})
unfolding call
publish sys s = do
  modify (close_output s)
  call sys rename_failed
  modify (move_output s)
  modify (remove_state sys s)

-- `some digest` where the source returns true and sets `actual_digest`.
unfoldable pub finalize_transfer : System → TransferState → Action (Option (List ℕ))
unfolding sync_output publish call
finalize_transfer sys s = if not (s.received_count == s.meta.total_blocks) then return none else do
  sync_output sys s
  call sys read_failed
  (if not (same_name (digest_of sys s) s.meta.sha256)
      then (do put_transfer (record s { final_sha_failed = true }); return none)
      else (do publish sys s; return (some (digest_of sys s))))

unfoldable pub send_section_status :
    System → TransferState → ℕ → ℕ → SectionStatusCode → ℕ → List ℕ → Action (Unit {0})
unfolding send_frame
send_section_status sys s section_id round_id status missing_count missing_bitmap = do
  frame ← lift (
      encode_section_status (record {
        transfer_id = s.meta.common.transfer_id;
        section_id = section_id;
        round_id = round_id;
        status = status;
        missing_count = missing_count;
        missing_bitmap = missing_bitmap;
      }))
  send_frame sys frame

unfoldable pub send_receiver_complete : System → ℕ → ℕ → List ℕ → Action (Unit {0})
unfolding send_frame
send_receiver_complete sys transfer_id file_size sha256 = send_frame sys (
    encode_receiver_complete
      (record { transfer_id = transfer_id; file_size = file_size; sha256 = sha256 }))

abbrev pub section_failed : SectionStatusCode
section_failed = failed

-- The report of a section that misses blocks.
unfoldable pub report_missing : System → TransferState → ℕ → ℕ → ℕ → List ℕ → Action (Unit {0})
unfolding send_section_status
report_missing sys s section_id round_id missing_count bitmap = do
  send_section_status sys s section_id round_id missing missing_count bitmap
  put_transfer (record s { last_reported_round = some round_id })

-- The report of a whole section once `finalize_transfer` has returned.
unfoldable pub report_finalized :
    System → TransferState → ℕ → ℕ → Option (List ℕ) → Action (Unit {0})
unfolding send_section_status send_receiver_complete
report_finalized sys s section_id round_id none =
    if not (s.received_count == s.meta.total_blocks)
    then (do
      send_section_status sys s section_id round_id complete 0 []
      put_transfer (record s { last_reported_round = some round_id }))
    else (do
      send_section_status sys s section_id round_id failed 0 []
      put_transfer (record s { final_sha_failed = true; last_reported_round = some round_id }))
report_finalized sys s section_id round_id (some digest) = do
  put_transfer (record s { last_reported_round = some round_id; awaiting_complete_ack = true })
  send_section_status sys s section_id round_id complete 0 []
  send_receiver_complete sys s.meta.common.transfer_id s.meta.file_size digest

-- What a drained section is reported as, with its bitmap and count of missing blocks.
unfoldable pub report_section : System → TransferState → ℕ → ℕ → List ℕ × ℕ → Action (Unit {0})
unfolding report_missing sync_output save_receiver_state finalize_transfer report_finalized
report_section sys s section_id round_id (bitmap, missing_count) =
    if not (missing_count == 0)
    then report_missing sys s section_id round_id missing_count bitmap
    else do
      sync_output sys s
      save_receiver_state sys s
      outcome ← finalize_transfer sys s
      report_finalized sys s section_id round_id outcome

-- With the section that is active, if there is one.
unfoldable pub report_active : System → TransferState → ℕ → Option ℕ → Action (Unit {0})
unfolding report_section
report_active sys s round_id none = throw no_active_section
report_active sys s round_id (some section_id) =
    lift (make_missing_bitmap s section_id) >>= report_section sys s section_id round_id

unfoldable pub finish_drain_and_report : System → TransferState → ℕ → Action (Unit {0})
unfolding report_active
finish_drain_and_report sys s round_id = report_active sys s round_id s.active_section_id
