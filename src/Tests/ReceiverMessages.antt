-- ===== src/Tests/ReceiverMessages.antt =====
-- One message of each kind of Protocol/Control/Receiver, there and back.
use site_repair_cast.Common.{List, [], arith, ok, refl, replicate, ℕ, ◌>>=◌, ◌∷◌, ◌≡◌}
use site_repair_cast.Protocol.Control.Receiver.{
  MetaReadyMessage, ReceiverCompleteMessage, ReceiverReadyMessage, RegisterMessage,
  SectionStatusMessage, decode_meta_ready, decode_receiver_complete, decode_receiver_ready,
  decode_register, decode_section_status, encode_meta_ready, encode_receiver_complete,
  encode_receiver_ready, encode_register, encode_section_status, missing, receiving,
}
use site_repair_cast.Protocol.Control.Receiver.RoundTrip.{
  decode_meta_ready-encode_meta_ready, decode_receiver_complete-encode_receiver_complete,
  decode_receiver_ready-encode_receiver_ready, decode_register-encode_register,
  decode_section_status-encode_section_status,
}

abbrev digest : List ℕ
digest = replicate 32 0xab

abbrev register_message : RegisterMessage
register_message = record {
  current_transfer_id = 7;
  udp_port = 9000;
  peer_udp_port = 9001;
  state = receiving;
}

decode_register-encode_register_run :
    decode_register (encode_register register_message) ≡ ok register_message
decode_register-encode_register_run =
    decode_register-encode_register register_message (omega arith, omega arith, omega arith)

abbrev meta_ready_message : MetaReadyMessage
meta_ready_message = record { transfer_id = 0x1122_3344_5566_7788 }

decode_meta_ready-encode_meta_ready_run :
    decode_meta_ready (encode_meta_ready meta_ready_message) ≡ ok meta_ready_message
decode_meta_ready-encode_meta_ready_run =
    decode_meta_ready-encode_meta_ready meta_ready_message (omega arith)

abbrev section_status_message : SectionStatusMessage
section_status_message = record {
  transfer_id = 0x1122_3344_5566_7788;
  section_id = 4;
  round_id = 2;
  status = missing;
  missing_count = 2;
  missing_bitmap = 0x21 ∷ [];
}

decode_section_status-encode_section_status_run :
    (encode_section_status section_status_message >>= decode_section_status)
    ≡ ok section_status_message
decode_section_status-encode_section_status_run =
    decode_section_status-encode_section_status section_status_message
      (omega arith, omega arith, omega arith, omega arith, omega arith)

abbrev receiver_complete_message : ReceiverCompleteMessage
receiver_complete_message = record {
  transfer_id = 0x1122_3344_5566_7788;
  file_size = 3000;
  sha256 = digest;
}

decode_receiver_complete-encode_receiver_complete_run :
    decode_receiver_complete (encode_receiver_complete receiver_complete_message)
    ≡ ok receiver_complete_message
decode_receiver_complete-encode_receiver_complete_run =
    decode_receiver_complete-encode_receiver_complete receiver_complete_message
      (omega arith, omega arith, refl)

abbrev receiver_ready_message : ReceiverReadyMessage
receiver_ready_message = record { previous_transfer_id = 7 }

decode_receiver_ready-encode_receiver_ready_run :
    decode_receiver_ready (encode_receiver_ready receiver_ready_message) ≡ ok receiver_ready_message
decode_receiver_ready-encode_receiver_ready_run =
    decode_receiver_ready-encode_receiver_ready receiver_ready_message (omega arith)
