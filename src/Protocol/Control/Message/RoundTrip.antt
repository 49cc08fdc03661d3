-- ===== src/Protocol/Control/Message/RoundTrip.antt =====
-- Any control message, from its encoder to the peer that reads it.
use site_repair_cast.Common.{◌∙◌, ap, refl, ℕ, ◌≡◌, List, Result, ◌>>=◌, ok, err}
use site_repair_cast.Protocol.Bytes.Laws.{wire}
use site_repair_cast.Protocol.Control.Backfill.{
  decode_peer_repair_task, encode_peer_repair_task, decode_backfill_end, encode_backfill_end,
  decode_backfill_data, encode_backfill_data, decode_backfill_begin, encode_backfill_begin,
}
use site_repair_cast.Protocol.Control.Backfill.RoundTrip.{
  decode_peer_repair_task-encode_peer_repair_task, decode_backfill_end-encode_backfill_end,
  decode_backfill_data-encode_backfill_data, decode_backfill_begin-encode_backfill_begin,
  PeerRepairTaskFits, BackfillEndFits, BackfillDataFits, BackfillBeginFits,
}
use site_repair_cast.Protocol.Control.Central.{
  decode_central_resume, encode_central_resume, decode_central_status, encode_central_status,
  decode_central_file_end, encode_central_file_end, decode_central_data, encode_central_data,
  decode_central_file_meta, encode_central_file_meta, encode_central_session_end,
  decode_central_session_end,
}
use site_repair_cast.Protocol.Control.Central.RoundTrip.{
  decode_central_resume-encode_central_resume, decode_central_status-encode_central_status,
  decode_central_file_end-encode_central_file_end, decode_central_data-encode_central_data,
  decode_central_file_meta-encode_central_file_meta, CentralResumeFits, CentralStatusFits,
  CentralFileEndFits, CentralDataFits, CentralFileMetaFits,
}
use site_repair_cast.Protocol.Control.Header.{
  peek_control_type, read_control_header, ControlType, register, meta_ready, section_status,
  receiver_complete, receiver_ready, file_meta, repair_begin, complete_ack, transfer_result,
  section_end, backfill_begin, backfill_data, backfill_end, peer_repair_task, central_file_meta,
  central_data, central_file_end, central_status, central_resume, session_end, central_session_end,
}
use site_repair_cast.Protocol.Control.Message.{
  decode_kind, encode_message, read_message, Message, register_message, meta_ready_message,
  section_status_message, receiver_complete_message, receiver_ready_message, file_meta_message,
  repair_begin_message, complete_ack_message, transfer_result_message, section_end_message,
  backfill_begin_message, backfill_data_message, backfill_end_message, peer_repair_task_message,
  central_file_meta_message, central_data_message, central_file_end_message, central_status_message,
  central_resume_message, session_end_message, central_session_end_message,
}
use site_repair_cast.Protocol.Control.Message.Peek.{
  peek-encode_central_session_end, peek-encode_session_end, peek-encode_central_resume,
  peek-encode_central_status, peek-encode_central_file_end, peek-encode_central_data,
  peek-encode_central_file_meta, peek-encode_peer_repair_task, peek-encode_backfill_end,
  peek-encode_backfill_data, peek-encode_backfill_begin, peek-encode_section_end,
  peek-encode_transfer_result, peek-encode_complete_ack, peek-encode_repair_begin,
  peek-encode_file_meta, peek-encode_receiver_ready, peek-encode_receiver_complete,
  peek-encode_section_status, peek-encode_meta_ready, peek-encode_register, ok-Peeks,
}
use site_repair_cast.Protocol.Control.Proxy.{
  decode_section_end, encode_section_end, decode_transfer_result, encode_transfer_result,
  decode_complete_ack, encode_complete_ack, decode_repair_begin, encode_repair_begin,
  decode_file_meta, encode_file_meta, encode_session_end, decode_session_end,
}
use site_repair_cast.Protocol.Control.Proxy.RoundTrip.{
  decode_section_end-encode_section_end, decode_transfer_result-encode_transfer_result,
  decode_complete_ack-encode_complete_ack, decode_repair_begin-encode_repair_begin,
  decode_file_meta-encode_file_meta, SectionEndFits, TransferResultFits, CompleteAckFits,
  RepairBeginFits, FileMetaFits,
}
use site_repair_cast.Protocol.Control.Receiver.{
  decode_receiver_ready, encode_receiver_ready, decode_receiver_complete, encode_receiver_complete,
  decode_section_status, encode_section_status, decode_meta_ready, encode_meta_ready,
  decode_register, encode_register,
}
use site_repair_cast.Protocol.Control.Receiver.RoundTrip.{
  decode_receiver_ready-encode_receiver_ready, decode_receiver_complete-encode_receiver_complete,
  decode_section_status-encode_section_status, decode_meta_ready-encode_meta_ready,
  decode_register-encode_register, ReceiverReadyFits, ReceiverCompleteFits, SectionStatusFits,
  MetaReadyFits, RegisterFits,
}

abbrev pub MessageFits : Message → Type 0
MessageFits (register_message m) = RegisterFits m
MessageFits (meta_ready_message m) = MetaReadyFits m
MessageFits (section_status_message m) = SectionStatusFits m
MessageFits (receiver_complete_message m) = ReceiverCompleteFits m
MessageFits (receiver_ready_message m) = ReceiverReadyFits m
MessageFits (file_meta_message m) = FileMetaFits m
MessageFits (repair_begin_message m) = RepairBeginFits m
MessageFits (complete_ack_message m) = CompleteAckFits m
MessageFits (transfer_result_message m) = TransferResultFits m
MessageFits (section_end_message m) = SectionEndFits m
MessageFits (backfill_begin_message m) = BackfillBeginFits m
MessageFits (backfill_data_message m) = BackfillDataFits m
MessageFits (backfill_end_message m) = BackfillEndFits m
MessageFits (peer_repair_task_message m) = PeerRepairTaskFits m
MessageFits (central_file_meta_message m) = CentralFileMetaFits m
MessageFits (central_data_message m) = CentralDataFits m
MessageFits (central_file_end_message m) = CentralFileEndFits m
MessageFits (central_status_message m) = CentralStatusFits m
MessageFits (central_resume_message m) = CentralResumeFits m
MessageFits session_end_message = Unit {0}
MessageFits central_session_end_message = Unit {0}

-- A frame whose header names the type, read by the decoder of that type.
read_through :
    {X : Type 0} (r : Result (List ℕ)) (decode : List ℕ → Result X) (inject : X → Message)
    (type : ControlType) (m : X)
    → (r >>= decode) ≡ ok m
    → ((frame : List ℕ) → r ≡ ok frame → peek_control_type frame ≡ ok type)
    → ((frame : List ℕ) → decode_kind type frame ≡ (decode frame >>= λ x. ok (inject x)))
    → (r >>= read_message) ≡ ok (inject m)
unfolding read_message
read_through (err e) decode inject type m h peek kind = absurd cc
read_through (ok frame) decode inject type m h peek kind =
    ap (λ (p : Result ControlType). p >>= λ type. decode_kind type frame) (peek frame refl)
    ∙ kind frame
    ∙ ap (λ x. x >>= λ x. ok (inject x)) h

-- A message without fields.
read_end :
    (type : ControlType) (m : Message) (frame : List ℕ) (decode : List ℕ → Result (Unit {0}))
    → peek_control_type frame ≡ ok type
    → decode frame ≡ ok tt
    → ((frame : List ℕ) → decode_kind type frame ≡ (decode frame >>= λ _. ok m))
    → (ok frame >>= read_message) ≡ ok m
unfolding read_message
read_end type m frame decode peek h kind =
    ap (λ (p : Result ControlType). p >>= λ type. decode_kind type frame) peek
    ∙ kind frame
    ∙ ap (λ (x : Result (Unit {0})). x >>= λ _. ok m) h

decode_session_end-encode_session_end : decode_session_end encode_session_end ≡ ok tt
unfolding decode_session_end encode_session_end read_control_header
decode_session_end-encode_session_end = simp wire refl

decode_central_session_end-encode_central_session_end :
    decode_central_session_end encode_central_session_end ≡ ok tt
unfolding decode_central_session_end encode_central_session_end read_control_header
decode_central_session_end-encode_central_session_end = simp wire refl

-- A control message of any kind whose integers, lists and names are within their C++ types and the
-- limits of the protocol is encoded without an error, and a peer that looks at the type in the
-- frame's header and calls the decoder of that type gets the same message.
pub read_message-encode_message :
    (m : Message) → MessageFits m → (encode_message m >>= read_message) ≡ ok m
unfolding encode_message decode_kind
read_message-encode_message (register_message m) h =
    read_through (ok (encode_register m)) decode_register register_message register m
      (decode_register-encode_register m h) (ok-Peeks register (peek-encode_register m)) (λ _. refl)
read_message-encode_message (meta_ready_message m) h =
    read_through (ok (encode_meta_ready m)) decode_meta_ready meta_ready_message meta_ready m
      (decode_meta_ready-encode_meta_ready m h) (ok-Peeks meta_ready (peek-encode_meta_ready m))
      (λ _. refl)
read_message-encode_message (section_status_message m) h =
    read_through (encode_section_status m) decode_section_status section_status_message
      section_status m (decode_section_status-encode_section_status m h)
      (peek-encode_section_status m) (λ _. refl)
read_message-encode_message (receiver_complete_message m) h =
    read_through (ok (encode_receiver_complete m)) decode_receiver_complete
      receiver_complete_message receiver_complete m
      (decode_receiver_complete-encode_receiver_complete m h)
      (ok-Peeks receiver_complete (peek-encode_receiver_complete m)) (λ _. refl)
read_message-encode_message (receiver_ready_message m) h =
    read_through (ok (encode_receiver_ready m)) decode_receiver_ready receiver_ready_message
      receiver_ready m (decode_receiver_ready-encode_receiver_ready m h)
      (ok-Peeks receiver_ready (peek-encode_receiver_ready m)) (λ _. refl)
read_message-encode_message (file_meta_message m) h =
    read_through (encode_file_meta m) decode_file_meta file_meta_message file_meta m
      (decode_file_meta-encode_file_meta m h) (peek-encode_file_meta m) (λ _. refl)
read_message-encode_message (repair_begin_message m) h =
    read_through (ok (encode_repair_begin m)) decode_repair_begin repair_begin_message repair_begin
      m (decode_repair_begin-encode_repair_begin m h)
      (ok-Peeks repair_begin (peek-encode_repair_begin m)) (λ _. refl)
read_message-encode_message (complete_ack_message m) h =
    read_through (ok (encode_complete_ack m)) decode_complete_ack complete_ack_message complete_ack
      m (decode_complete_ack-encode_complete_ack m h)
      (ok-Peeks complete_ack (peek-encode_complete_ack m)) (λ _. refl)
read_message-encode_message (transfer_result_message m) h =
    read_through (ok (encode_transfer_result m)) decode_transfer_result transfer_result_message
      transfer_result m (decode_transfer_result-encode_transfer_result m h)
      (ok-Peeks transfer_result (peek-encode_transfer_result m)) (λ _. refl)
read_message-encode_message (section_end_message m) h =
    read_through (ok (encode_section_end m)) decode_section_end section_end_message section_end m
      (decode_section_end-encode_section_end m h) (ok-Peeks section_end (peek-encode_section_end m))
      (λ _. refl)
read_message-encode_message (backfill_begin_message m) h =
    read_through (ok (encode_backfill_begin m)) decode_backfill_begin backfill_begin_message
      backfill_begin m (decode_backfill_begin-encode_backfill_begin m h)
      (ok-Peeks backfill_begin (peek-encode_backfill_begin m)) (λ _. refl)
read_message-encode_message (backfill_data_message m) h =
    read_through (encode_backfill_data m) decode_backfill_data backfill_data_message backfill_data m
      (decode_backfill_data-encode_backfill_data m h) (peek-encode_backfill_data m) (λ _. refl)
read_message-encode_message (backfill_end_message m) h =
    read_through (ok (encode_backfill_end m)) decode_backfill_end backfill_end_message backfill_end
      m (decode_backfill_end-encode_backfill_end m h)
      (ok-Peeks backfill_end (peek-encode_backfill_end m)) (λ _. refl)
read_message-encode_message (peer_repair_task_message m) h =
    read_through (encode_peer_repair_task m) decode_peer_repair_task peer_repair_task_message
      peer_repair_task m (decode_peer_repair_task-encode_peer_repair_task m h)
      (peek-encode_peer_repair_task m) (λ _. refl)
read_message-encode_message (central_file_meta_message m) h =
    read_through (encode_central_file_meta m) decode_central_file_meta central_file_meta_message
      central_file_meta m (decode_central_file_meta-encode_central_file_meta m h)
      (peek-encode_central_file_meta m) (λ _. refl)
read_message-encode_message (central_data_message m) h =
    read_through (encode_central_data m) decode_central_data central_data_message central_data m
      (decode_central_data-encode_central_data m h) (peek-encode_central_data m) (λ _. refl)
read_message-encode_message (central_file_end_message m) h =
    read_through (ok (encode_central_file_end m)) decode_central_file_end central_file_end_message
      central_file_end m (decode_central_file_end-encode_central_file_end m h)
      (ok-Peeks central_file_end (peek-encode_central_file_end m)) (λ _. refl)
read_message-encode_message (central_status_message m) h =
    read_through (ok (encode_central_status m)) decode_central_status central_status_message
      central_status m (decode_central_status-encode_central_status m h)
      (ok-Peeks central_status (peek-encode_central_status m)) (λ _. refl)
read_message-encode_message (central_resume_message m) h =
    read_through (ok (encode_central_resume m)) decode_central_resume central_resume_message
      central_resume m (decode_central_resume-encode_central_resume m h)
      (ok-Peeks central_resume (peek-encode_central_resume m)) (λ _. refl)
read_message-encode_message session_end_message h =
    read_end session_end session_end_message encode_session_end decode_session_end
      peek-encode_session_end decode_session_end-encode_session_end (λ _. refl)
read_message-encode_message central_session_end_message h =
    read_end central_session_end central_session_end_message encode_central_session_end
      decode_central_session_end peek-encode_central_session_end
      decode_central_session_end-encode_central_session_end (λ _. refl)
