-- ===== src/Protocol/Control/Central.antt =====
-- Messages between the central sender and a proxy.
pub mod RoundTrip
use site_repair_cast.Common.{
  ℕ, ◌+◌, ◌*◌, Bool, ◌&&◌, List, [], ◌∷◌, length, ltb, leb, ◌==◌, if◌then◌else◌, Error, Result, ok,
  err, invalid_file_name, invalid_size, unexpected_type, invalid_code, bitmap_too_large,
  invalid_bitmap_length, invalid_payload_size, invalid_block_count, invalid_block_list,
}
use site_repair_cast.Protocol.Bytes.{
  put_u16, put_u32, put_u64, written, Reader, and_then, ◌>>=◌, ◌>>◌, return, throw_unless,
  remaining, get_bytes, get_u16, get_u32, get_u64, decoded,
}
use site_repair_cast.Protocol.Control.Header.{
  ControlType, register, section_status, repair_begin, receiver_complete, complete_ack,
  transfer_result, section_end, receiver_ready, session_end, file_meta, meta_ready,
  central_file_meta, central_data, central_file_end, central_status, central_session_end,
  central_resume, backfill_begin, backfill_data, backfill_end, peer_repair_task, is_type,
  write_control_header, read_control_header, is_valid_file_name, write_file_name, read_file_name,
}
use site_repair_cast.Protocol.Packet.{sha256_size, payload_limit}

pub data CentralStatusCode : Type 0 where
  cached failed : CentralStatusCode

abbrev pub central_status_code : CentralStatusCode → ℕ
central_status_code cached = 1
central_status_code failed = 2

-- The cast of a code that the range test has let through.
abbrev pub central_status_of : ℕ → CentralStatusCode
central_status_of raw = if raw == 1 then cached else failed

pub record CentralFileMetaMessage : Type 0 where
  pub transfer_id : ℕ
  pub file_size : ℕ
  pub block_size : ℕ
  pub total_blocks : ℕ
  pub section_block_count : ℕ
  pub file_name : List ℕ
  pub sha256 : List ℕ

unfoldable pub encode_central_file_meta : CentralFileMetaMessage → Result (List ℕ)
encode_central_file_meta m =
    if is_valid_file_name m.file_name
    then ok (
        written (
          write_control_header central_file_meta (
            put_u64 m.transfer_id
            ∷ put_u64 m.file_size
            ∷ put_u32 m.block_size
            ∷ put_u32 m.total_blocks
            ∷ put_u32 m.section_block_count
            ∷ write_file_name m.file_name
            ∷ m.sha256
            ∷ [])))
    else err invalid_file_name

central_file_meta_body : Reader CentralFileMetaMessage
central_file_meta_body = do
  size ← remaining
  throw_unless (leb 70 size) invalid_size
  type ← read_control_header
  throw_unless (is_type central_file_meta type) unexpected_type
  transfer_id ← get_u64
  file_size ← get_u64
  block_size ← get_u32
  total_blocks ← get_u32
  section_block_count ← get_u32
  file_name ← read_file_name
  sha256 ← get_bytes sha256_size
  left ← remaining
  throw_unless (left == 0) invalid_size
  return (record {
    transfer_id = transfer_id;
    file_size = file_size;
    block_size = block_size;
    total_blocks = total_blocks;
    section_block_count = section_block_count;
    file_name = file_name;
    sha256 = sha256;
  })

unfoldable pub decode_central_file_meta : List ℕ → Result CentralFileMetaMessage
unfolding central_file_meta_body
decode_central_file_meta frame = decoded (central_file_meta_body frame)

pub record CentralDataMessage : Type 0 where
  pub transfer_id : ℕ
  pub section_id : ℕ
  pub block_id : ℕ
  pub offset : ℕ
  pub payload_size : ℕ
  pub crc32 : ℕ
  pub payload : List ℕ

unfoldable pub encode_central_data : CentralDataMessage → Result (List ℕ)
encode_central_data m =
    if leb (length m.payload) payload_limit && length m.payload == m.payload_size
    then ok (
        written (
          write_control_header central_data (
            put_u64 m.transfer_id
            ∷ put_u32 m.section_id
            ∷ put_u32 m.block_id
            ∷ put_u64 m.offset
            ∷ put_u16 m.payload_size
            ∷ put_u16 0
            ∷ put_u32 m.crc32
            ∷ m.payload
            ∷ [])))
    else err invalid_payload_size

central_data_body : Reader CentralDataMessage
central_data_body = do
  size ← remaining
  throw_unless (leb 40 size) invalid_size
  type ← read_control_header
  throw_unless (is_type central_data type) unexpected_type
  transfer_id ← get_u64
  section_id ← get_u32
  block_id ← get_u32
  offset ← get_u64
  payload_size ← get_u16
  _ ← get_u16
  crc32 ← get_u32
  left ← remaining
  throw_unless (leb payload_size payload_limit && payload_size == left) invalid_payload_size
  payload ← get_bytes payload_size
  return (record {
    transfer_id = transfer_id;
    section_id = section_id;
    block_id = block_id;
    offset = offset;
    payload_size = payload_size;
    crc32 = crc32;
    payload = payload;
  })

unfoldable pub decode_central_data : List ℕ → Result CentralDataMessage
unfolding central_data_body
decode_central_data frame = decoded (central_data_body frame)

pub record CentralFileEndMessage : Type 0 where
  pub transfer_id : ℕ
  pub section_id : ℕ
  pub total_blocks : ℕ

unfoldable pub encode_central_file_end : CentralFileEndMessage → List ℕ
encode_central_file_end m = written (
    write_control_header central_file_end
      (put_u64 m.transfer_id ∷ put_u32 m.section_id ∷ put_u32 m.total_blocks ∷ []))

central_file_end_body : Reader CentralFileEndMessage
central_file_end_body = do
  size ← remaining
  throw_unless (size == 24) invalid_size
  type ← read_control_header
  throw_unless (is_type central_file_end type) unexpected_type
  transfer_id ← get_u64
  section_id ← get_u32
  total_blocks ← get_u32
  return
      (record { transfer_id = transfer_id; section_id = section_id; total_blocks = total_blocks })

unfoldable pub decode_central_file_end : List ℕ → Result CentralFileEndMessage
unfolding central_file_end_body
decode_central_file_end frame = decoded (central_file_end_body frame)

pub record CentralStatusMessage : Type 0 where
  pub transfer_id : ℕ
  pub status : CentralStatusCode
  pub file_size : ℕ
  pub sha256 : List ℕ

unfoldable pub encode_central_status : CentralStatusMessage → List ℕ
encode_central_status m = written (
    write_control_header central_status (
      put_u64 m.transfer_id
      ∷ put_u16 (central_status_code m.status)
      ∷ put_u16 0
      ∷ put_u64 m.file_size
      ∷ m.sha256
      ∷ []))

central_status_body : Reader CentralStatusMessage
central_status_body = do
  size ← remaining
  throw_unless (size == 60) invalid_size
  type ← read_control_header
  throw_unless (is_type central_status type) unexpected_type
  transfer_id ← get_u64
  raw_status ← get_u16
  _ ← get_u16
  throw_unless (leb 1 raw_status && leb raw_status 2) invalid_code
  file_size ← get_u64
  sha256 ← get_bytes sha256_size
  return (record {
    transfer_id = transfer_id;
    status = central_status_of raw_status;
    file_size = file_size;
    sha256 = sha256;
  })

unfoldable pub decode_central_status : List ℕ → Result CentralStatusMessage
unfolding central_status_body
decode_central_status frame = decoded (central_status_body frame)

pub record CentralResumeMessage : Type 0 where
  pub transfer_id : ℕ
  pub next_section_id : ℕ
  pub total_sections : ℕ
  pub file_size : ℕ
  pub sha256 : List ℕ

unfoldable pub encode_central_resume : CentralResumeMessage → List ℕ
encode_central_resume m = written (
    write_control_header central_resume (
      put_u64 m.transfer_id
      ∷ put_u32 m.next_section_id
      ∷ put_u32 m.total_sections
      ∷ put_u64 m.file_size
      ∷ m.sha256
      ∷ []))

central_resume_body : Reader CentralResumeMessage
central_resume_body = do
  size ← remaining
  throw_unless (size == 64) invalid_size
  type ← read_control_header
  throw_unless (is_type central_resume type) unexpected_type
  transfer_id ← get_u64
  next_section_id ← get_u32
  total_sections ← get_u32
  file_size ← get_u64
  sha256 ← get_bytes sha256_size
  return (record {
    transfer_id = transfer_id;
    next_section_id = next_section_id;
    total_sections = total_sections;
    file_size = file_size;
    sha256 = sha256;
  })

unfoldable pub decode_central_resume : List ℕ → Result CentralResumeMessage
unfolding central_resume_body
decode_central_resume frame = decoded (central_resume_body frame)

unfoldable pub encode_central_session_end : List ℕ
encode_central_session_end = written (write_control_header central_session_end [])

central_session_end_body : Reader (Unit {0})
central_session_end_body = do
  size ← remaining
  throw_unless (size == 8) invalid_size
  type ← read_control_header
  throw_unless (is_type central_session_end type) unexpected_type

unfoldable pub decode_central_session_end : List ℕ → Result (Unit {0})
unfolding central_session_end_body
decode_central_session_end frame = decoded (central_session_end_body frame)
