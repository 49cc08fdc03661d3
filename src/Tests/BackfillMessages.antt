-- ===== src/Tests/BackfillMessages.antt =====
-- One message of each kind of Protocol/Control/Backfill, there and back.
use site_repair_cast.Common.{List, [], arith, ok, refl, replicate, ℕ, ◌>>=◌, ◌∷◌, ◌≡◌}
use site_repair_cast.Protocol.Control.Backfill.{
  BackfillBeginMessage, BackfillDataMessage, BackfillEndMessage, PeerRepairTaskMessage,
  decode_backfill_begin, decode_backfill_data, decode_backfill_end, decode_peer_repair_task,
  encode_backfill_begin, encode_backfill_data, encode_backfill_end, encode_peer_repair_task,
}
use site_repair_cast.Protocol.Control.Backfill.RoundTrip.{
  decode_backfill_begin-encode_backfill_begin, decode_backfill_data-encode_backfill_data,
  decode_backfill_end-encode_backfill_end, decode_peer_repair_task-encode_peer_repair_task,
}

abbrev digest : List ℕ
digest = replicate 32 0xab

abbrev backfill_begin_message : BackfillBeginMessage
backfill_begin_message = record { transfer_id = 0x1122_3344_5566_7788; total_blocks = 3 }

decode_backfill_begin-encode_backfill_begin_run :
    decode_backfill_begin (encode_backfill_begin backfill_begin_message) ≡ ok backfill_begin_message
decode_backfill_begin-encode_backfill_begin_run =
    decode_backfill_begin-encode_backfill_begin backfill_begin_message (omega arith, omega arith)

abbrev backfill_data_message : BackfillDataMessage
backfill_data_message = record {
  transfer_id = 0x1122_3344_5566_7788;
  block_id = 1;
  offset = 1200;
  payload_size = 3;
  crc32 = 0xcbf4_3926;
  payload = 1 ∷ 2 ∷ 3 ∷ [];
}

decode_backfill_data-encode_backfill_data_run :
    (encode_backfill_data backfill_data_message >>= decode_backfill_data) ≡ ok backfill_data_message
decode_backfill_data-encode_backfill_data_run =
    decode_backfill_data-encode_backfill_data backfill_data_message
      (omega arith, omega arith, omega arith, omega arith, refl, omega arith)

abbrev backfill_end_message : BackfillEndMessage
backfill_end_message = record {
  transfer_id = 0x1122_3344_5566_7788;
  file_size = 3000;
  total_blocks = 3;
  sha256 = digest;
}

decode_backfill_end-encode_backfill_end_run :
    decode_backfill_end (encode_backfill_end backfill_end_message) ≡ ok backfill_end_message
decode_backfill_end-encode_backfill_end_run =
    decode_backfill_end-encode_backfill_end backfill_end_message
      (omega arith, omega arith, omega arith, refl)

abbrev peer_repair_task_message : PeerRepairTaskMessage
peer_repair_task_message = record {
  transfer_id = 0x1122_3344_5566_7788;
  section_id = 4;
  round_id = 2;
  task_id = 9;
  target_ipv4 = 0x7f00_0001;
  target_port = 9001;
  block_ids = 3 ∷ 5 ∷ 8 ∷ [];
}

decode_peer_repair_task-encode_peer_repair_task_run :
    (encode_peer_repair_task peer_repair_task_message >>= decode_peer_repair_task)
    ≡ ok peer_repair_task_message
decode_peer_repair_task-encode_peer_repair_task_run =
    decode_peer_repair_task-encode_peer_repair_task peer_repair_task_message (
      omega arith,
      omega arith,
      omega arith,
      omega arith,
      omega arith,
      omega arith,
      omega arith,
      omega arith,
      (omega arith, (omega arith, (omega arith, tt))),
    )
