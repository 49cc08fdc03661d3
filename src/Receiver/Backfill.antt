-- ===== src/Receiver/Backfill.antt =====
-- The messages of the TCP backfill, and the end of a transfer, on the open transfer.
use site_repair_cast.Common.{
  get_or, true, [], false, ltb, ◌==◌, none, not, write_failed, List, some, if◌then◌else◌, ◌||◌, ℕ,
  Bool, Option,
}
use site_repair_cast.Protocol.Control.Backfill.{BackfillEndMessage, BackfillDataMessage}
use site_repair_cast.Protocol.Control.Proxy.{
  TransferResultCode, completed, failed, TransferResultMessage, CompleteAckMessage,
}
use site_repair_cast.Protocol.Control.Receiver.{encode_receiver_ready}
use site_repair_cast.Receiver.Datagram.{store_block, payload_matches}
use site_repair_cast.Receiver.Machine.{
  put_transfer, return, same_name, reset_transfer, modify, save_receiver_state, Action, sync_output,
  System, send_frame, call_output, ◌>>=◌, ◌>>◌,
}
use site_repair_cast.Receiver.Report.{
  section_failed, send_receiver_complete, finalize_transfer, send_section_status,
}
use site_repair_cast.Receiver.State.{reject, TransferState}

abbrev pub is_closed : TransferState → Bool
is_closed s = s.awaiting_complete_ack || s.final_sha_failed

-- The mark in memory, the block on the disk, the mark on the disk, in that order.
unfoldable pub commit_marks : System → TransferState → Action (Unit {0})
unfolding sync_output save_receiver_state
commit_marks sys s = do put_transfer s; sync_output sys s; save_receiver_state sys s

-- A block that is written.
unfoldable pub store_backfill : System → TransferState → BackfillDataMessage → Action (Unit {0})
unfolding call_output commit_marks
store_backfill sys s message = do
  call_output sys write_failed
  commit_marks sys (store_block s message.block_id message.payload message.offset)

unfoldable pub on_backfill_data : System → TransferState → BackfillDataMessage → Action (Unit {0})
unfolding payload_matches store_backfill
on_backfill_data sys s message =
    if not (message.transfer_id == s.meta.common.transfer_id)
      || is_closed s
      || not (ltb message.block_id s.meta.total_blocks)
    then return tt
    else if not (
        payload_matches s.meta message.block_id message.offset message.payload_size message.crc32
          message.payload)
    then put_transfer (reject s)
    else if not (get_or s.received message.block_id 0 == 0)
    then return tt
    else store_backfill sys s message

abbrev pub or_zero : Option ℕ → ℕ
or_zero none = 0
or_zero (some v) = v

unfoldable pub backfill_outcome : System → TransferState → Option (List ℕ) → Action (Unit {0})
unfolding send_section_status send_receiver_complete
backfill_outcome sys s none =
    let s' = record s { final_sha_failed = s.received_count == s.meta.total_blocks } in
    do
      send_section_status sys s' (or_zero s.active_section_id) (or_zero s.last_reported_round)
          section_failed 0 []
      put_transfer (record s' { last_reported_round = some (or_zero s.last_reported_round) })
backfill_outcome sys s (some digest) = do
  put_transfer (record s { awaiting_complete_ack = true })
  send_receiver_complete sys s.meta.common.transfer_id s.meta.file_size digest

unfoldable pub on_backfill_end : System → TransferState → BackfillEndMessage → Action (Unit {0})
unfolding finalize_transfer backfill_outcome
on_backfill_end sys s message =
    if not (message.transfer_id == s.meta.common.transfer_id)
      || not (message.file_size == s.meta.file_size)
      || not (message.total_blocks == s.meta.total_blocks)
      || not (same_name message.sha256 s.meta.sha256)
      || is_closed s
    then return tt
    else do outcome ← finalize_transfer sys s; backfill_outcome sys s outcome

-- The timer is disarmed, the transfer dropped and RECEIVER_READY sent.
unfoldable pub end_transfer : System → TransferState → Action (Unit {0})
unfolding send_frame
end_transfer sys s = do
  modify (reset_transfer s)
  modify (λ w. record w { drain = record (w.drain) { draining = false; drain_timer = none } })
  send_frame sys
      (encode_receiver_ready (record { previous_transfer_id = s.meta.common.transfer_id }))

unfoldable pub on_complete_ack : System → TransferState → CompleteAckMessage → Action (Unit {0})
unfolding end_transfer
on_complete_ack sys s message =
    if not (message.transfer_id == s.meta.common.transfer_id) || not s.awaiting_complete_ack
    then return tt
    else end_transfer sys s

unfoldable pub end_if_failed : System → TransferState → TransferResultCode → Action (Unit {0})
unfolding end_transfer
end_if_failed sys s failed = end_transfer sys s
end_if_failed sys s completed = return tt

unfoldable pub on_transfer_result :
    System → TransferState → TransferResultMessage → Action (Unit {0})
unfolding end_if_failed
on_transfer_result sys s message =
    if not (message.transfer_id == s.meta.common.transfer_id)
    then return tt
    else end_if_failed sys s message.result
