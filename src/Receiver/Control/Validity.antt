-- ===== src/Receiver/Control/Validity.antt =====
-- The validity of the open transfer and of the saved states over the control messages.
use site_repair_cast.Common.{
  inr, inl, ◌==◌, ◌^◌, not, ◌<◌, Bool-cases, ok, Option, ◌≡◌, ℕ, List, none, some,
}
use site_repair_cast.Protocol.Control.Header.{
  peek_control_type, ControlType, session_end, file_meta, section_end, repair_begin,
  peer_repair_task, backfill_begin, backfill_data, backfill_end, complete_ack, transfer_result,
}
use site_repair_cast.Protocol.Control.Proxy.{
  TransferResultMessage, TransferResultCode, SectionEndMessage, decode_file_meta, FileMetaMessage,
  completed, failed,
}
use site_repair_cast.Receiver.Control.{
  with_transfer, handle_control_message, handle_kind, answer_result, ready_if_failed,
  on_section_end, for_transfer,
}
use site_repair_cast.Receiver.Control.Messages.{
  complete_ack-Keeps, backfill_end-Keeps, backfill_data-Keeps, peer_task-Keeps,
  transfer_result-Keeps,
}
use site_repair_cast.Receiver.Datagram.Validity.{begin_drain_for_round-IsValid, Open, IsValid}
use site_repair_cast.Receiver.Machine.{Machine, Action, System}
use site_repair_cast.Receiver.Machine.Keeps.{Keeps, lift-Keeps, bind-Keeps, lifted-Keeps}
use site_repair_cast.Receiver.Report.Validity.{send_frame-Keeps, IsWellFormed}
use site_repair_cast.Receiver.Start.Validity.{file_meta-Keeps}
use site_repair_cast.Receiver.State.{TransferState}

-- A file is smaller than `off_t` can say.
abbrev pub SmallFile : List ℕ → Type 0
SmallFile frame =
    (message : FileMetaMessage) → decode_file_meta frame ≡ ok message → message.file_size < 2 ^ 63

for_transfer-Keeps :
    (act : TransferState → Action (Unit {0}))
    → ((s : TransferState) → IsValid s → Keeps IsWellFormed (act s))
    → Keeps IsWellFormed (with_transfer act)
unfolding for_transfer
for_transfer-Keeps act each = record { keep = λ w h. at w.transfer w h.0 h }
  where
    at :
        (transfer : Option TransferState) (w : Machine)
        → Open IsValid transfer
        → IsWellFormed w
        → IsWellFormed (for_transfer act transfer w).1
    at none w v h = h
    at (some s) w v h = (each s v).keep w h

module _ (sys : System) (now : ℕ) where
  section_end-Keeps :
      (s : TransferState) (message : SectionEndMessage)
      → IsValid s
      → Keeps IsWellFormed (on_section_end now s message)
  unfolding on_section_end
  section_end-Keeps s message v = record {
    keep = λ w h. elim (Bool-cases (not (message.transfer_id == s.meta.common.transfer_id))) [
      | inl other ↦ rw other h
      | inr this ↦ rw this (
        begin_drain_for_round-IsValid now s w.drain message.section_id message.round_id
            message.total_blocks v,
        h.1,
      )
    ];
  }

  ready_if_failed-Keeps :
      (id : ℕ) (code : TransferResultCode) → Keeps IsWellFormed (ready_if_failed sys id code)
  unfolding ready_if_failed
  ready_if_failed-Keeps id failed = send_frame-Keeps sys _
  ready_if_failed-Keeps id completed = lift-Keeps _

  answer_result-Keeps :
      (message : TransferResultMessage) (transfer : Option TransferState)
      → Keeps IsWellFormed (answer_result sys message transfer)
  unfolding answer_result
  answer_result-Keeps message none = ready_if_failed-Keeps message.transfer_id message.result
  answer_result-Keeps message (some s) = transfer_result-Keeps sys s message

  handle_kind-Keeps :
      (frame : List ℕ) (type : ControlType)
      → SmallFile frame
      → Keeps IsWellFormed (handle_kind sys now frame type)
  unfolding handle_kind
  handle_kind-Keeps frame session_end small =
      bind-Keeps (lift-Keeps _) (λ _. record { keep = λ w h. h })
  handle_kind-Keeps frame file_meta small =
      lifted-Keeps (decode_file_meta frame)
        (λ message e. file_meta-Keeps sys message (small message e))
  handle_kind-Keeps frame section_end small =
      bind-Keeps (lift-Keeps _)
        (λ message. for_transfer-Keeps _ (λ s v. section_end-Keeps s message v))
  handle_kind-Keeps frame repair_begin small = bind-Keeps (lift-Keeps _) (λ _. lift-Keeps _)
  handle_kind-Keeps frame peer_repair_task small =
      bind-Keeps (lift-Keeps _)
        (λ message. for_transfer-Keeps _ (λ s v. peer_task-Keeps sys s message))
  handle_kind-Keeps frame backfill_begin small = bind-Keeps (lift-Keeps _) (λ _. lift-Keeps _)
  handle_kind-Keeps frame backfill_data small =
      bind-Keeps (lift-Keeps _)
        (λ message. for_transfer-Keeps _ (λ s v. backfill_data-Keeps sys s message v))
  handle_kind-Keeps frame backfill_end small =
      bind-Keeps (lift-Keeps _)
        (λ message. for_transfer-Keeps _ (λ s v. backfill_end-Keeps sys s message v))
  handle_kind-Keeps frame complete_ack small =
      bind-Keeps (lift-Keeps _)
        (λ message. for_transfer-Keeps _ (λ s v. complete_ack-Keeps sys s message))
  handle_kind-Keeps frame transfer_result small =
      bind-Keeps (lift-Keeps _)
        (λ message. record { keep = λ w h. (answer_result-Keeps message w.transfer).keep w h })
  handle_kind-Keeps frame _ small = lift-Keeps _

  -- The whole handler.
  pub handle_control_message-IsWellFormed :
      (frame : List ℕ) (w : Machine)
      → SmallFile frame
      → IsWellFormed w
      → IsWellFormed (handle_control_message sys now frame w).1
  unfolding handle_control_message
  handle_control_message-IsWellFormed frame w small h =
      (bind-Keeps (lift-Keeps (peek_control_type frame))
          (λ type. handle_kind-Keeps frame type small)).keep
        w h
