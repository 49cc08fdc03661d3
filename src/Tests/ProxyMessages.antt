-- ===== src/Tests/ProxyMessages.antt =====
-- One message of each kind of Protocol/Control/Proxy, there and back.
use site_repair_cast.Common.{List, [], arith, ok, refl, replicate, ℕ, ◌>>=◌, ◌∷◌, ◌≡◌}
use site_repair_cast.Protocol.Control.Proxy.{
  CompleteAckMessage, FileMetaMessage, RepairBeginMessage, SectionEndMessage, TransferResultMessage,
  decode_complete_ack, decode_file_meta, decode_repair_begin, decode_section_end,
  decode_transfer_result, encode_complete_ack, encode_file_meta, encode_repair_begin,
  encode_section_end, encode_transfer_result, failed,
}
use site_repair_cast.Protocol.Control.Proxy.RoundTrip.{
  decode_complete_ack-encode_complete_ack, decode_file_meta-encode_file_meta,
  decode_repair_begin-encode_repair_begin, decode_section_end-encode_section_end,
  decode_transfer_result-encode_transfer_result,
}

abbrev digest : List ℕ
digest = replicate 32 0xab

abbrev file_meta_message : FileMetaMessage
file_meta_message = record {
  transfer_id = 0x1122_3344_5566_7788;
  section_id = 4;
  file_size = 3000;
  block_size = 1200;
  total_blocks = 3;
  section_block_count = 64;
  file_name = 0x61 ∷ 0x2e ∷ 0x62 ∷ [];
  sha256 = digest;
}

decode_file_meta-encode_file_meta_run :
    (encode_file_meta file_meta_message >>= decode_file_meta) ≡ ok file_meta_message
decode_file_meta-encode_file_meta_run = decode_file_meta-encode_file_meta file_meta_message (
  omega arith,
  omega arith,
  omega arith,
  omega arith,
  omega arith,
  omega arith,
  omega arith,
  omega arith,
  refl,
)

abbrev repair_begin_message : RepairBeginMessage
repair_begin_message = record { transfer_id = 0x1122_3344_5566_7788; section_id = 4; round_id = 2 }

decode_repair_begin-encode_repair_begin_run :
    decode_repair_begin (encode_repair_begin repair_begin_message) ≡ ok repair_begin_message
decode_repair_begin-encode_repair_begin_run =
    decode_repair_begin-encode_repair_begin repair_begin_message
      (omega arith, omega arith, omega arith)

abbrev complete_ack_message : CompleteAckMessage
complete_ack_message = record { transfer_id = 0x1122_3344_5566_7788 }

decode_complete_ack-encode_complete_ack_run :
    decode_complete_ack (encode_complete_ack complete_ack_message) ≡ ok complete_ack_message
decode_complete_ack-encode_complete_ack_run =
    decode_complete_ack-encode_complete_ack complete_ack_message (omega arith)

abbrev transfer_result_message : TransferResultMessage
transfer_result_message = record { transfer_id = 0x1122_3344_5566_7788; result = failed }

decode_transfer_result-encode_transfer_result_run :
    decode_transfer_result (encode_transfer_result transfer_result_message)
    ≡ ok transfer_result_message
decode_transfer_result-encode_transfer_result_run =
    decode_transfer_result-encode_transfer_result transfer_result_message (omega arith)

abbrev section_end_message : SectionEndMessage
section_end_message = record {
  transfer_id = 0x1122_3344_5566_7788;
  section_id = 4;
  round_id = 2;
  total_blocks = 3;
}

decode_section_end-encode_section_end_run :
    decode_section_end (encode_section_end section_end_message) ≡ ok section_end_message
decode_section_end-encode_section_end_run =
    decode_section_end-encode_section_end section_end_message
      (omega arith, omega arith, omega arith, omega arith)
