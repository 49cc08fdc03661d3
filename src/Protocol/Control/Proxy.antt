-- ===== src/Protocol/Control/Proxy.antt =====
-- Messages from a proxy to its receivers.
pub mod RoundTrip
use site_repair_cast.Common.{
  ℕ, ◌+◌, ◌*◌, Bool, ◌&&◌, List, [], ◌∷◌, length, ltb, leb, ◌==◌, if◌then◌else◌, Error, Result, ok,
  err, invalid_file_name, invalid_size, unexpected_type, invalid_code, bitmap_too_large,
  invalid_bitmap_length, invalid_payload_size, invalid_block_count, invalid_block_list,
}
use site_repair_cast.Protocol.Bytes.{
  put_u16, put_u32, put_u64, written, Reader, and_then, ◌>>=◌, ◌>>◌, return, throw_unless,
  remaining, get_bytes, get_u16, get_u32, get_u64, decoded,
}
use site_repair_cast.Protocol.Control.Header.{
  ControlType, register, section_status, repair_begin, receiver_complete, complete_ack,
  transfer_result, section_end, receiver_ready, session_end, file_meta, meta_ready,
  central_file_meta, central_data, central_file_end, central_status, central_session_end,
  central_resume, backfill_begin, backfill_data, backfill_end, peer_repair_task, is_type,
  write_control_header, read_control_header, is_valid_file_name, write_file_name, read_file_name,
}
use site_repair_cast.Protocol.Packet.{sha256_size, payload_limit}

pub data TransferResultCode : Type 0 where
  completed failed : TransferResultCode

abbrev pub transfer_result_code : TransferResultCode → ℕ
transfer_result_code completed = 1
transfer_result_code failed = 2

-- The cast of a code that the range test has let through.
abbrev pub transfer_result_of : ℕ → TransferResultCode
transfer_result_of raw = if raw == 1 then completed else failed

pub record FileMetaMessage : Type 0 where
  pub transfer_id : ℕ
  pub section_id : ℕ
  pub file_size : ℕ
  pub block_size : ℕ
  pub total_blocks : ℕ
  pub section_block_count : ℕ
  pub file_name : List ℕ
  pub sha256 : List ℕ

unfoldable pub encode_file_meta : FileMetaMessage → Result (List ℕ)
encode_file_meta m =
    if is_valid_file_name m.file_name
    then ok (
        written (
          write_control_header file_meta (
            put_u64 m.transfer_id
            ∷ put_u32 m.section_id
            ∷ put_u64 m.file_size
            ∷ put_u32 m.block_size
            ∷ put_u32 m.total_blocks
            ∷ put_u32 m.section_block_count
            ∷ write_file_name m.file_name
            ∷ m.sha256
            ∷ [])))
    else err invalid_file_name

file_meta_body : Reader FileMetaMessage
file_meta_body = do
  size ← remaining
  throw_unless (leb 74 size) invalid_size
  type ← read_control_header
  throw_unless (is_type file_meta type) unexpected_type
  transfer_id ← get_u64
  section_id ← get_u32
  file_size ← get_u64
  block_size ← get_u32
  total_blocks ← get_u32
  section_block_count ← get_u32
  file_name ← read_file_name
  sha256 ← get_bytes sha256_size
  left ← remaining
  throw_unless (left == 0) invalid_size
  return (record {
    transfer_id = transfer_id;
    section_id = section_id;
    file_size = file_size;
    block_size = block_size;
    total_blocks = total_blocks;
    section_block_count = section_block_count;
    file_name = file_name;
    sha256 = sha256;
  })

unfoldable pub decode_file_meta : List ℕ → Result FileMetaMessage
unfolding file_meta_body
decode_file_meta frame = decoded (file_meta_body frame)

pub record RepairBeginMessage : Type 0 where
  pub transfer_id : ℕ
  pub section_id : ℕ
  pub round_id : ℕ

unfoldable pub encode_repair_begin : RepairBeginMessage → List ℕ
encode_repair_begin m = written (
    write_control_header repair_begin
      (put_u64 m.transfer_id ∷ put_u32 m.section_id ∷ put_u32 m.round_id ∷ []))

repair_begin_body : Reader RepairBeginMessage
repair_begin_body = do
  size ← remaining
  throw_unless (size == 24) invalid_size
  type ← read_control_header
  throw_unless (is_type repair_begin type) unexpected_type
  transfer_id ← get_u64
  section_id ← get_u32
  round_id ← get_u32
  return (record { transfer_id = transfer_id; section_id = section_id; round_id = round_id })

unfoldable pub decode_repair_begin : List ℕ → Result RepairBeginMessage
unfolding repair_begin_body
decode_repair_begin frame = decoded (repair_begin_body frame)

pub record CompleteAckMessage : Type 0 where
  pub transfer_id : ℕ

unfoldable pub encode_complete_ack : CompleteAckMessage → List ℕ
encode_complete_ack m = written (write_control_header complete_ack (put_u64 m.transfer_id ∷ []))

complete_ack_body : Reader CompleteAckMessage
complete_ack_body = do
  size ← remaining
  throw_unless (size == 16) invalid_size
  type ← read_control_header
  throw_unless (is_type complete_ack type) unexpected_type
  transfer_id ← get_u64
  return (record { transfer_id = transfer_id })

unfoldable pub decode_complete_ack : List ℕ → Result CompleteAckMessage
unfolding complete_ack_body
decode_complete_ack frame = decoded (complete_ack_body frame)

pub record TransferResultMessage : Type 0 where
  pub transfer_id : ℕ
  pub result : TransferResultCode

unfoldable pub encode_transfer_result : TransferResultMessage → List ℕ
encode_transfer_result m = written (
    write_control_header transfer_result
      (put_u64 m.transfer_id ∷ put_u16 (transfer_result_code m.result) ∷ put_u16 0 ∷ []))

transfer_result_body : Reader TransferResultMessage
transfer_result_body = do
  size ← remaining
  throw_unless (size == 20) invalid_size
  type ← read_control_header
  throw_unless (is_type transfer_result type) unexpected_type
  transfer_id ← get_u64
  raw_result ← get_u16
  _ ← get_u16
  throw_unless (leb 1 raw_result && leb raw_result 2) invalid_code
  return (record { transfer_id = transfer_id; result = transfer_result_of raw_result })

unfoldable pub decode_transfer_result : List ℕ → Result TransferResultMessage
unfolding transfer_result_body
decode_transfer_result frame = decoded (transfer_result_body frame)

pub record SectionEndMessage : Type 0 where
  pub transfer_id : ℕ
  pub section_id : ℕ
  pub round_id : ℕ
  pub total_blocks : ℕ

unfoldable pub encode_section_end : SectionEndMessage → List ℕ
encode_section_end m = written (
    write_control_header section_end (
      put_u64 m.transfer_id
      ∷ put_u32 m.section_id
      ∷ put_u32 m.round_id
      ∷ put_u32 m.total_blocks
      ∷ []))

section_end_body : Reader SectionEndMessage
section_end_body = do
  size ← remaining
  throw_unless (size == 28) invalid_size
  type ← read_control_header
  throw_unless (is_type section_end type) unexpected_type
  transfer_id ← get_u64
  section_id ← get_u32
  round_id ← get_u32
  total_blocks ← get_u32
  return (record {
    transfer_id = transfer_id;
    section_id = section_id;
    round_id = round_id;
    total_blocks = total_blocks;
  })

unfoldable pub decode_section_end : List ℕ → Result SectionEndMessage
unfolding section_end_body
decode_section_end frame = decoded (section_end_body frame)

unfoldable pub encode_session_end : List ℕ
encode_session_end = written (write_control_header session_end [])

session_end_body : Reader (Unit {0})
session_end_body = do
  size ← remaining
  throw_unless (size == 8) invalid_size
  type ← read_control_header
  throw_unless (is_type session_end type) unexpected_type

unfoldable pub decode_session_end : List ℕ → Result (Unit {0})
unfolding session_end_body
decode_session_end frame = decoded (session_end_body frame)
