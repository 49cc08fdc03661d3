-- ===== src/Receiver/Control.antt =====
-- `handle_control_message`, the timer, and `reconnect_proxy`.
pub mod Messages
pub mod Durable
pub mod CrashSafe
pub mod Validity
use site_repair_cast.Common.{Option, true, some, List, ok, ◌==◌, not, if◌then◌else◌, ℕ, none}
use site_repair_cast.Protocol.Control.Backfill.{
  decode_backfill_end, decode_backfill_data, decode_backfill_begin, decode_peer_repair_task,
}
use site_repair_cast.Protocol.Control.Header.{
  ControlType, peek_control_type, session_end, file_meta, section_end, repair_begin,
  peer_repair_task, backfill_begin, backfill_data, backfill_end, complete_ack, transfer_result,
}
use site_repair_cast.Protocol.Control.Proxy.{
  TransferResultCode, decode_transfer_result, decode_complete_ack, decode_repair_begin,
  decode_section_end, decode_file_meta, decode_session_end, TransferResultMessage,
  SectionEndMessage, failed, completed,
}
use site_repair_cast.Protocol.Control.Receiver.{encode_receiver_ready}
use site_repair_cast.Receiver.Backfill.{
  on_transfer_result, on_complete_ack, on_backfill_end, on_backfill_data,
}
use site_repair_cast.Receiver.Drain.{begin_drain_for_round}
use site_repair_cast.Receiver.Machine.{
  modify, return, lift, System, Action, send_frame, ◌>>=◌, ◌>>◌,
}
use site_repair_cast.Receiver.PeerRepair.{execute_peer_repair_task}
use site_repair_cast.Receiver.Start.{on_file_meta}
use site_repair_cast.Receiver.State.{TransferState}

-- A message for the open transfer; with none it changes nothing.
unfoldable pub for_transfer :
    (TransferState → Action (Unit {0})) → Option TransferState → Action (Unit {0})
for_transfer act none = return tt
for_transfer act (some s) = act s

abbrev pub with_transfer : (TransferState → Action (Unit {0})) → Action (Unit {0})
with_transfer act w = for_transfer act w.transfer w

unfoldable pub on_section_end : ℕ → TransferState → SectionEndMessage → Action (Unit {0})
on_section_end now s message w =
    if not (message.transfer_id == s.meta.common.transfer_id)
    then (ok tt, w)
    else let (s', d') =
        begin_drain_for_round now s w.drain message.section_id message.round_id
          message.total_blocks in
      (ok tt, record w { transfer = some s'; drain = d' })

-- With no transfer open.
unfoldable pub ready_if_failed : System → ℕ → TransferResultCode → Action (Unit {0})
unfolding send_frame
ready_if_failed sys transfer_id failed =
    send_frame sys (encode_receiver_ready (record { previous_transfer_id = transfer_id }))
ready_if_failed sys transfer_id completed = return tt

unfoldable pub answer_result :
    System → TransferResultMessage → Option TransferState → Action (Unit {0})
unfolding on_transfer_result ready_if_failed
answer_result sys message none = ready_if_failed sys message.transfer_id message.result
answer_result sys message (some s) = on_transfer_result sys s message

-- A message of a known kind. REPAIR_BEGIN and BACKFILL_BEGIN are decoded, and then only printed.
unfoldable pub handle_kind : System → ℕ → List ℕ → ControlType → Action (Unit {0})
unfolding on_file_meta on_section_end execute_peer_repair_task on_backfill_data on_backfill_end
    on_complete_ack answer_result for_transfer
handle_kind sys now frame session_end =
    lift (decode_session_end frame) >>= λ _. modify (λ w. record w { stop_requested = true })
handle_kind sys now frame file_meta = lift (decode_file_meta frame) >>= on_file_meta sys
handle_kind sys now frame section_end =
    lift (decode_section_end frame) >>= λ message. with_transfer (λ s. on_section_end now s message)
handle_kind sys now frame repair_begin = lift (decode_repair_begin frame) >>= λ _. return tt
handle_kind sys now frame peer_repair_task = lift (decode_peer_repair_task frame) >>= λ message.
    with_transfer (λ s. execute_peer_repair_task sys s message)
handle_kind sys now frame backfill_begin = lift (decode_backfill_begin frame) >>= λ _. return tt
handle_kind sys now frame backfill_data = lift (decode_backfill_data frame) >>= λ message.
    with_transfer (λ s. on_backfill_data sys s message)
handle_kind sys now frame backfill_end = lift (decode_backfill_end frame) >>= λ message.
    with_transfer (λ s. on_backfill_end sys s message)
handle_kind sys now frame complete_ack = lift (decode_complete_ack frame) >>= λ message.
    with_transfer (λ s. on_complete_ack sys s message)
handle_kind sys now frame transfer_result =
    lift (decode_transfer_result frame) >>= λ message w. answer_result sys message w.transfer w
handle_kind sys now frame _ = return tt

unfoldable pub handle_control_message : System → ℕ → List ℕ → Action (Unit {0})
unfolding handle_kind
handle_control_message sys now frame = lift (peek_control_type frame) >>= handle_kind sys now frame
