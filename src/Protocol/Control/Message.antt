-- ===== src/Protocol/Control/Message.antt =====
-- The control messages as one type, and what reads a frame of any kind: the peers look at the type of
-- the frame first and then call the decoder of that type.
use site_repair_cast.Common.{ok, Result, ℕ, List, ◌>>=◌}
use site_repair_cast.Protocol.Control.Backfill.{
  decode_peer_repair_task, encode_peer_repair_task, PeerRepairTaskMessage, decode_backfill_end,
  encode_backfill_end, BackfillEndMessage, decode_backfill_data, encode_backfill_data,
  BackfillDataMessage, decode_backfill_begin, encode_backfill_begin, BackfillBeginMessage,
}
use site_repair_cast.Protocol.Control.Central.{
  decode_central_session_end, encode_central_session_end, decode_central_resume,
  encode_central_resume, CentralResumeMessage, decode_central_status, encode_central_status,
  CentralStatusMessage, decode_central_file_end, encode_central_file_end, CentralFileEndMessage,
  decode_central_data, encode_central_data, CentralDataMessage, decode_central_file_meta,
  encode_central_file_meta, CentralFileMetaMessage,
}
use site_repair_cast.Protocol.Control.Header.{
  ControlType, peek_control_type, register, meta_ready, section_status, receiver_complete,
  receiver_ready, file_meta, repair_begin, complete_ack, transfer_result, section_end,
  backfill_begin, backfill_data, backfill_end, peer_repair_task, central_file_meta, central_data,
  central_file_end, central_status, central_resume, session_end, central_session_end,
}
use site_repair_cast.Protocol.Control.Proxy.{
  decode_session_end, encode_session_end, decode_section_end, encode_section_end, SectionEndMessage,
  decode_transfer_result, encode_transfer_result, TransferResultMessage, decode_complete_ack,
  encode_complete_ack, CompleteAckMessage, decode_repair_begin, encode_repair_begin,
  RepairBeginMessage, decode_file_meta, encode_file_meta, FileMetaMessage,
}
use site_repair_cast.Protocol.Control.Receiver.{
  decode_receiver_ready, encode_receiver_ready, ReceiverReadyMessage, decode_receiver_complete,
  encode_receiver_complete, ReceiverCompleteMessage, decode_section_status, encode_section_status,
  SectionStatusMessage, decode_meta_ready, encode_meta_ready, MetaReadyMessage, decode_register,
  encode_register, RegisterMessage,
}
pub mod RoundTrip
pub mod Peek

pub data Message : Type 0 where
  register_message : RegisterMessage → Message
  meta_ready_message : MetaReadyMessage → Message
  section_status_message : SectionStatusMessage → Message
  receiver_complete_message : ReceiverCompleteMessage → Message
  receiver_ready_message : ReceiverReadyMessage → Message
  file_meta_message : FileMetaMessage → Message
  repair_begin_message : RepairBeginMessage → Message
  complete_ack_message : CompleteAckMessage → Message
  transfer_result_message : TransferResultMessage → Message
  section_end_message : SectionEndMessage → Message
  backfill_begin_message : BackfillBeginMessage → Message
  backfill_data_message : BackfillDataMessage → Message
  backfill_end_message : BackfillEndMessage → Message
  peer_repair_task_message : PeerRepairTaskMessage → Message
  central_file_meta_message : CentralFileMetaMessage → Message
  central_data_message : CentralDataMessage → Message
  central_file_end_message : CentralFileEndMessage → Message
  central_status_message : CentralStatusMessage → Message
  central_resume_message : CentralResumeMessage → Message
  session_end_message central_session_end_message : Message

unfoldable pub encode_message : Message → Result (List ℕ)
unfolding encode_register encode_meta_ready encode_section_status encode_receiver_complete
    encode_receiver_ready encode_file_meta encode_repair_begin encode_complete_ack
    encode_transfer_result encode_section_end encode_backfill_begin encode_backfill_data
    encode_backfill_end encode_peer_repair_task encode_central_file_meta encode_central_data
    encode_central_file_end encode_central_status encode_central_resume encode_session_end
    encode_central_session_end
encode_message (register_message m) = ok (encode_register m)
encode_message (meta_ready_message m) = ok (encode_meta_ready m)
encode_message (section_status_message m) = encode_section_status m
encode_message (receiver_complete_message m) = ok (encode_receiver_complete m)
encode_message (receiver_ready_message m) = ok (encode_receiver_ready m)
encode_message (file_meta_message m) = encode_file_meta m
encode_message (repair_begin_message m) = ok (encode_repair_begin m)
encode_message (complete_ack_message m) = ok (encode_complete_ack m)
encode_message (transfer_result_message m) = ok (encode_transfer_result m)
encode_message (section_end_message m) = ok (encode_section_end m)
encode_message (backfill_begin_message m) = ok (encode_backfill_begin m)
encode_message (backfill_data_message m) = encode_backfill_data m
encode_message (backfill_end_message m) = ok (encode_backfill_end m)
encode_message (peer_repair_task_message m) = encode_peer_repair_task m
encode_message (central_file_meta_message m) = encode_central_file_meta m
encode_message (central_data_message m) = encode_central_data m
encode_message (central_file_end_message m) = ok (encode_central_file_end m)
encode_message (central_status_message m) = ok (encode_central_status m)
encode_message (central_resume_message m) = ok (encode_central_resume m)
encode_message session_end_message = ok encode_session_end
encode_message central_session_end_message = ok encode_central_session_end

unfoldable pub decode_kind : ControlType → List ℕ → Result Message
unfolding decode_register decode_meta_ready decode_section_status decode_receiver_complete
    decode_receiver_ready decode_file_meta decode_repair_begin decode_complete_ack
    decode_transfer_result decode_section_end decode_backfill_begin decode_backfill_data
    decode_backfill_end decode_peer_repair_task decode_central_file_meta decode_central_data
    decode_central_file_end decode_central_status decode_central_resume decode_session_end
    decode_central_session_end
decode_kind register frame = decode_register frame >>= λ m. ok (register_message m)
decode_kind meta_ready frame = decode_meta_ready frame >>= λ m. ok (meta_ready_message m)
decode_kind section_status frame =
    decode_section_status frame >>= λ m. ok (section_status_message m)
decode_kind receiver_complete frame =
    decode_receiver_complete frame >>= λ m. ok (receiver_complete_message m)
decode_kind receiver_ready frame =
    decode_receiver_ready frame >>= λ m. ok (receiver_ready_message m)
decode_kind file_meta frame = decode_file_meta frame >>= λ m. ok (file_meta_message m)
decode_kind repair_begin frame = decode_repair_begin frame >>= λ m. ok (repair_begin_message m)
decode_kind complete_ack frame = decode_complete_ack frame >>= λ m. ok (complete_ack_message m)
decode_kind transfer_result frame =
    decode_transfer_result frame >>= λ m. ok (transfer_result_message m)
decode_kind section_end frame = decode_section_end frame >>= λ m. ok (section_end_message m)
decode_kind backfill_begin frame =
    decode_backfill_begin frame >>= λ m. ok (backfill_begin_message m)
decode_kind backfill_data frame = decode_backfill_data frame >>= λ m. ok (backfill_data_message m)
decode_kind backfill_end frame = decode_backfill_end frame >>= λ m. ok (backfill_end_message m)
decode_kind peer_repair_task frame =
    decode_peer_repair_task frame >>= λ m. ok (peer_repair_task_message m)
decode_kind central_file_meta frame =
    decode_central_file_meta frame >>= λ m. ok (central_file_meta_message m)
decode_kind central_data frame = decode_central_data frame >>= λ m. ok (central_data_message m)
decode_kind central_file_end frame =
    decode_central_file_end frame >>= λ m. ok (central_file_end_message m)
decode_kind central_status frame =
    decode_central_status frame >>= λ m. ok (central_status_message m)
decode_kind central_resume frame =
    decode_central_resume frame >>= λ m. ok (central_resume_message m)
decode_kind session_end frame = decode_session_end frame >>= λ _. ok session_end_message
decode_kind central_session_end frame =
    decode_central_session_end frame >>= λ _. ok central_session_end_message

unfoldable pub read_message : List ℕ → Result Message
unfolding peek_control_type decode_kind
read_message frame = peek_control_type frame >>= λ type. decode_kind type frame
