-- ===== src/Protocol/Control/Message/Peek.antt =====
-- The type that the header of each encoded message names.
use mathlib.Core.Path.{subst}
use site_repair_cast.Common.{
  ◌||◌, ◌&&◌, ◌==◌, length, leb, ltb, ok_injective, refl, if-cases, ◌≡◌, ℕ, List, Error, Result, ok,
  err,
}
use site_repair_cast.Protocol.Bytes.Laws.{wire}
use site_repair_cast.Protocol.Control.Backfill.{
  peer_block_limit, PeerRepairTaskMessage, BackfillDataMessage, BackfillEndMessage,
  BackfillBeginMessage, encode_peer_repair_task, encode_backfill_data, encode_backfill_end,
  encode_backfill_begin,
}
use site_repair_cast.Protocol.Control.Central.{
  CentralDataMessage, CentralFileMetaMessage, CentralResumeMessage, CentralStatusMessage,
  CentralFileEndMessage, encode_central_data, encode_central_file_meta, encode_central_session_end,
  encode_central_resume, encode_central_status, encode_central_file_end,
}
use site_repair_cast.Protocol.Control.Header.{
  is_valid_file_name, read_control_header, peek_control_type, ControlType, register, meta_ready,
  section_status, receiver_complete, receiver_ready, file_meta, repair_begin, complete_ack,
  transfer_result, section_end, backfill_begin, backfill_data, backfill_end, peer_repair_task,
  central_file_meta, central_data, central_file_end, central_status, central_resume, session_end,
  central_session_end,
}
use site_repair_cast.Protocol.Control.Proxy.{
  FileMetaMessage, SectionEndMessage, TransferResultMessage, CompleteAckMessage, RepairBeginMessage,
  encode_file_meta, encode_session_end, encode_section_end, encode_transfer_result,
  encode_complete_ack, encode_repair_begin,
}
use site_repair_cast.Protocol.Control.Receiver.{
  SectionStatusMessage, ReceiverReadyMessage, ReceiverCompleteMessage, MetaReadyMessage,
  RegisterMessage, encode_section_status, encode_receiver_ready, encode_receiver_complete,
  encode_meta_ready, encode_register,
}
use site_repair_cast.Protocol.Packet.{payload_limit}

pub peek-encode_register :
    (m : RegisterMessage) → peek_control_type (encode_register m) ≡ ok register
unfolding encode_register peek_control_type read_control_header
peek-encode_register m = simp wire refl

pub peek-encode_meta_ready :
    (m : MetaReadyMessage) → peek_control_type (encode_meta_ready m) ≡ ok meta_ready
unfolding encode_meta_ready peek_control_type read_control_header
peek-encode_meta_ready m = simp wire refl

pub peek-encode_receiver_complete :
    (m : ReceiverCompleteMessage)
    → peek_control_type (encode_receiver_complete m) ≡ ok receiver_complete
unfolding encode_receiver_complete peek_control_type read_control_header
peek-encode_receiver_complete m = simp wire refl

pub peek-encode_receiver_ready :
    (m : ReceiverReadyMessage) → peek_control_type (encode_receiver_ready m) ≡ ok receiver_ready
unfolding encode_receiver_ready peek_control_type read_control_header
peek-encode_receiver_ready m = simp wire refl

pub peek-encode_repair_begin :
    (m : RepairBeginMessage) → peek_control_type (encode_repair_begin m) ≡ ok repair_begin
unfolding encode_repair_begin peek_control_type read_control_header
peek-encode_repair_begin m = simp wire refl

pub peek-encode_complete_ack :
    (m : CompleteAckMessage) → peek_control_type (encode_complete_ack m) ≡ ok complete_ack
unfolding encode_complete_ack peek_control_type read_control_header
peek-encode_complete_ack m = simp wire refl

pub peek-encode_transfer_result :
    (m : TransferResultMessage) → peek_control_type (encode_transfer_result m) ≡ ok transfer_result
unfolding encode_transfer_result peek_control_type read_control_header
peek-encode_transfer_result m = simp wire refl

pub peek-encode_section_end :
    (m : SectionEndMessage) → peek_control_type (encode_section_end m) ≡ ok section_end
unfolding encode_section_end peek_control_type read_control_header
peek-encode_section_end m = simp wire refl

pub peek-encode_backfill_begin :
    (m : BackfillBeginMessage) → peek_control_type (encode_backfill_begin m) ≡ ok backfill_begin
unfolding encode_backfill_begin peek_control_type read_control_header
peek-encode_backfill_begin m = simp wire refl

pub peek-encode_backfill_end :
    (m : BackfillEndMessage) → peek_control_type (encode_backfill_end m) ≡ ok backfill_end
unfolding encode_backfill_end peek_control_type read_control_header
peek-encode_backfill_end m = simp wire refl

pub peek-encode_central_file_end :
    (m : CentralFileEndMessage)
    → peek_control_type (encode_central_file_end m) ≡ ok central_file_end
unfolding encode_central_file_end peek_control_type read_control_header
peek-encode_central_file_end m = simp wire refl

pub peek-encode_central_status :
    (m : CentralStatusMessage) → peek_control_type (encode_central_status m) ≡ ok central_status
unfolding encode_central_status peek_control_type read_control_header
peek-encode_central_status m = simp wire refl

pub peek-encode_central_resume :
    (m : CentralResumeMessage) → peek_control_type (encode_central_resume m) ≡ ok central_resume
unfolding encode_central_resume peek_control_type read_control_header
peek-encode_central_resume m = simp wire refl

pub peek-encode_session_end : peek_control_type encode_session_end ≡ ok session_end
unfolding encode_session_end peek_control_type read_control_header
peek-encode_session_end = simp wire refl

pub peek-encode_central_session_end :
    peek_control_type encode_central_session_end ≡ ok central_session_end
unfolding encode_central_session_end peek_control_type read_control_header
peek-encode_central_session_end = simp wire refl

-- What an encoder that may throw returns.
abbrev pub Peeks : ControlType → Result (List ℕ) → Type 0
Peeks type r = (frame : List ℕ) → r ≡ ok frame → peek_control_type frame ≡ ok type

err-Peeks : (type : ControlType) (e : Error) → Peeks type (err e)
err-Peeks type e frame h = absurd cc

pub ok-Peeks :
    (type : ControlType) {bytes : List ℕ}
    → peek_control_type bytes ≡ ok type
    → Peeks type (ok bytes)
ok-Peeks type seen frame h =
    subst (λ (f : List ℕ). peek_control_type f ≡ ok type) (ok_injective h) seen

pub peek-encode_section_status :
    (m : SectionStatusMessage) → Peeks section_status (encode_section_status m)
unfolding encode_section_status peek_control_type read_control_header
peek-encode_section_status m =
    if-cases (Peeks section_status) (ltb 0xffff_ffff (length m.missing_bitmap))
      (λ _. err-Peeks section_status _) (λ _. ok-Peeks section_status (simp wire refl))

pub peek-encode_file_meta : (m : FileMetaMessage) → Peeks file_meta (encode_file_meta m)
unfolding encode_file_meta peek_control_type read_control_header
peek-encode_file_meta m =
    if-cases (Peeks file_meta) (is_valid_file_name m.file_name)
      (λ _. ok-Peeks file_meta (simp wire refl)) (λ _. err-Peeks file_meta _)

pub peek-encode_backfill_data :
    (m : BackfillDataMessage) → Peeks backfill_data (encode_backfill_data m)
unfolding encode_backfill_data peek_control_type read_control_header
peek-encode_backfill_data m =
    if-cases (Peeks backfill_data)
      (leb (length m.payload) payload_limit && length m.payload == m.payload_size)
      (λ _. ok-Peeks backfill_data (simp wire refl)) (λ _. err-Peeks backfill_data _)

pub peek-encode_peer_repair_task :
    (m : PeerRepairTaskMessage) → Peeks peer_repair_task (encode_peer_repair_task m)
unfolding encode_peer_repair_task peek_control_type read_control_header
peek-encode_peer_repair_task m =
    if-cases (Peeks peer_repair_task)
      (length m.block_ids == 0 || ltb peer_block_limit (length m.block_ids))
      (λ _. err-Peeks peer_repair_task _) (λ _. ok-Peeks peer_repair_task (simp wire refl))

pub peek-encode_central_file_meta :
    (m : CentralFileMetaMessage) → Peeks central_file_meta (encode_central_file_meta m)
unfolding encode_central_file_meta peek_control_type read_control_header
peek-encode_central_file_meta m =
    if-cases (Peeks central_file_meta) (is_valid_file_name m.file_name)
      (λ _. ok-Peeks central_file_meta (simp wire refl)) (λ _. err-Peeks central_file_meta _)

pub peek-encode_central_data : (m : CentralDataMessage) → Peeks central_data (encode_central_data m)
unfolding encode_central_data peek_control_type read_control_header
peek-encode_central_data m =
    if-cases (Peeks central_data)
      (leb (length m.payload) payload_limit && length m.payload == m.payload_size)
      (λ _. ok-Peeks central_data (simp wire refl)) (λ _. err-Peeks central_data _)
