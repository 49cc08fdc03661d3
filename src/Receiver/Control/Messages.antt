-- ===== src/Receiver/Control/Messages.antt =====
-- What each message for an open transfer keeps.
use site_repair_cast.Common.{
  if-both, read_failed, ltb, [], ◌||◌, ◌∷◌, ◌==◌, write_failed, not, length-set, arith, ◌≡◌, get_or,
  ◌<◌, Option, List, ℕ, none, some,
}
use site_repair_cast.Protocol.Control.Backfill.{
  PeerRepairTaskMessage, BackfillEndMessage, BackfillDataMessage,
}
use site_repair_cast.Protocol.Control.Proxy.{
  TransferResultCode, TransferResultMessage, CompleteAckMessage, failed, completed,
}
use site_repair_cast.Receiver.Backfill.{
  end_if_failed, commit_marks, is_closed, on_transfer_result, on_complete_ack, end_transfer,
  on_backfill_end, backfill_outcome, on_backfill_data, store_backfill,
}
use site_repair_cast.Receiver.Datagram.{payload_matches, store_block}
use site_repair_cast.Receiver.Datagram.Validity.{sum-lt, sum-set, set-flags, IsValid}
use site_repair_cast.Receiver.Machine.{same_name, System}
use site_repair_cast.Receiver.Machine.Keeps.{Keeps, if-Keeps, lift-Keeps, bind-Keeps}
use site_repair_cast.Receiver.PeerRepair.{
  may_send, has_section, send_peer_udp_packet, execute_peer_repair_task, send_peer_blocks,
  send_peer_block,
}
use site_repair_cast.Receiver.Report.Validity.{
  finalize-Keeps, save-Keeps, sync-Keeps, complete-Keeps, put-Keeps, send_frame-Keeps,
  put_flags-Keeps, close_output-IsWellFormed, status-Keeps, call_output-Keeps, IsWellFormed,
}
use site_repair_cast.Receiver.State.{reject, TransferState}

store_block-IsValid :
    (s : TransferState) (block_id : ℕ) (payload : List ℕ) (offset : ℕ)
    → block_id < s.meta.total_blocks
    → get_or s.received block_id 0 ≡ 0
    → IsValid s
    → IsValid (store_block s block_id payload offset)
store_block-IsValid s block_id payload offset inside free v = ground (
  arith,
  length-set s.received block_id 1,
  set-flags s.received block_id,
  sum-set s.received block_id,
  sum-lt s.received block_id,
)

module _ (sys : System) where
  commit_marks-Keeps : (s : TransferState) → IsValid s → Keeps IsWellFormed (commit_marks sys s)
  unfolding commit_marks
  commit_marks-Keeps s v =
      bind-Keeps (put-Keeps sys s v) (λ _. bind-Keeps (sync-Keeps sys s) (λ _. save-Keeps sys s v))

  store_backfill-Keeps :
      (s : TransferState) (message : BackfillDataMessage)
      → IsValid (store_block s message.block_id message.payload message.offset)
      → Keeps IsWellFormed (store_backfill sys s message)
  unfolding store_backfill
  store_backfill-Keeps s message v =
      bind-Keeps (call_output-Keeps sys write_failed)
        (λ _. commit_marks-Keeps (store_block s message.block_id message.payload message.offset) v)

  pub backfill_data-Keeps :
      (s : TransferState) (message : BackfillDataMessage)
      → IsValid s
      → Keeps IsWellFormed (on_backfill_data sys s message)
  unfolding on_backfill_data
  backfill_data-Keeps s message v =
      if-Keeps
        (not (message.transfer_id == s.meta.common.transfer_id)
          || is_closed s
          || not (ltb message.block_id s.meta.total_blocks))
        (λ _. lift-Keeps _)
        (λ inside.
          if-Keeps
            (not (
              payload_matches s.meta message.block_id message.offset message.payload_size
                message.crc32 message.payload))
            (λ _. put-Keeps sys (reject s) (record {
              consistent = v.consistent;
              mapped = v.mapped;
              flags = v.flags;
              counted = v.counted;
            }))
            (λ _.
              if-Keeps (not (get_or s.received message.block_id 0 == 0)) (λ _. lift-Keeps _)
                (λ free. store_backfill-Keeps s message (
                  store_block-IsValid s message.block_id message.payload message.offset
                    (ground arith) (ground arith) v))))

  backfill_outcome-Keeps :
      (s : TransferState) (outcome : Option (List ℕ))
      → IsValid s
      → Keeps IsWellFormed (backfill_outcome sys s outcome)
  unfolding backfill_outcome
  backfill_outcome-Keeps s none v =
      bind-Keeps
        (status-Keeps sys (record s { final_sha_failed = s.received_count == s.meta.total_blocks })
          _ _ _ _ _)
        (λ _. put_flags-Keeps sys s _ _ _ v)
  backfill_outcome-Keeps s (some digest) v =
      bind-Keeps (put_flags-Keeps sys s _ _ _ v) (λ _. complete-Keeps sys _ _ _)

  pub backfill_end-Keeps :
      (s : TransferState) (message : BackfillEndMessage)
      → IsValid s
      → Keeps IsWellFormed (on_backfill_end sys s message)
  unfolding on_backfill_end
  backfill_end-Keeps s message v =
      if-Keeps
        (not (message.transfer_id == s.meta.common.transfer_id)
          || not (message.file_size == s.meta.file_size)
          || not (message.total_blocks == s.meta.total_blocks)
          || not (same_name message.sha256 s.meta.sha256)
          || is_closed s)
        (λ _. lift-Keeps _)
        (λ _. bind-Keeps (finalize-Keeps sys s v) (λ outcome. backfill_outcome-Keeps s outcome v))

  end_transfer-Keeps : (s : TransferState) → Keeps IsWellFormed (end_transfer sys s)
  unfolding end_transfer
  end_transfer-Keeps s =
      bind-Keeps (record { keep = λ w h. (tt, (close_output-IsWellFormed s w h).1) })
        (λ _. bind-Keeps (record { keep = λ w h. h }) (λ _. send_frame-Keeps sys _))

  pub complete_ack-Keeps :
      (s : TransferState) (message : CompleteAckMessage)
      → Keeps IsWellFormed (on_complete_ack sys s message)
  unfolding on_complete_ack
  complete_ack-Keeps s message =
      if-Keeps
        (not (message.transfer_id == s.meta.common.transfer_id) || not s.awaiting_complete_ack)
        (λ _. lift-Keeps _) (λ _. end_transfer-Keeps s)

  end_if_failed-Keeps :
      (s : TransferState) (code : TransferResultCode)
      → Keeps IsWellFormed (end_if_failed sys s code)
  unfolding end_if_failed
  end_if_failed-Keeps s failed = end_transfer-Keeps s
  end_if_failed-Keeps s completed = lift-Keeps _

  pub transfer_result-Keeps :
      (s : TransferState) (message : TransferResultMessage)
      → Keeps IsWellFormed (on_transfer_result sys s message)
  unfolding on_transfer_result
  transfer_result-Keeps s message =
      if-Keeps (not (message.transfer_id == s.meta.common.transfer_id)) (λ _. lift-Keeps _)
        (λ _. end_if_failed-Keeps s message.result)

  peer_block-Keeps :
      (s : TransferState) (task : PeerRepairTaskMessage) (block_id : ℕ)
      → Keeps IsWellFormed (send_peer_block sys s task block_id)
  unfolding send_peer_block send_peer_udp_packet
  peer_block-Keeps s task block_id =
      if-Keeps (not (may_send s task block_id)) (λ _. lift-Keeps _)
        (λ _. bind-Keeps (call_output-Keeps sys read_failed) (λ _.
          bind-Keeps (lift-Keeps _)
            (λ packet. record { keep = λ w h. if-both IsWellFormed (sys.fails w.calls) h h })))

  peer_blocks-Keeps :
      (s : TransferState) (task : PeerRepairTaskMessage) (block_ids : List ℕ)
      → Keeps IsWellFormed (send_peer_blocks sys s task block_ids)
  unfolding send_peer_blocks
  peer_blocks-Keeps s task [] = lift-Keeps _
  peer_blocks-Keeps s task (block_id ∷ block_ids) =
      bind-Keeps (peer_block-Keeps s task block_id) (λ _. peer_blocks-Keeps s task block_ids)

  pub peer_task-Keeps :
      (s : TransferState) (task : PeerRepairTaskMessage)
      → Keeps IsWellFormed (execute_peer_repair_task sys s task)
  unfolding execute_peer_repair_task
  peer_task-Keeps s task =
      if-Keeps
        (not (task.transfer_id == s.meta.common.transfer_id)
          || s.awaiting_complete_ack
          || s.final_sha_failed
          || task.target_port == 0
          || not (has_section s task.section_id))
        (λ _. lift-Keeps _) (λ _. peer_blocks-Keeps s task task.block_ids)
