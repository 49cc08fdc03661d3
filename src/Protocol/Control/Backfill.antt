-- ===== src/Protocol/Control/Backfill.antt =====
-- The TCP backfill of an isolated receiver, and the task that makes a receiver send to another.
pub mod RoundTrip
use site_repair_cast.Common.{
  ℕ, ◌+◌, ◌*◌, zero, suc, Bool, ◌&&◌, ◌||◌, ◌++◌, List, [], ◌∷◌, length, ltb, leb, ◌==◌,
  if◌then◌else◌, Error, Result, ok, err, invalid_file_name, invalid_size, unexpected_type,
  invalid_code, bitmap_too_large, invalid_bitmap_length, invalid_payload_size, invalid_block_count,
  invalid_block_list,
}
use site_repair_cast.Protocol.Bytes.{
  put_u16, put_u32, put_u64, written, Reader, and_then, ◌>>=◌, ◌>>◌, return, throw_unless,
  remaining, get_bytes, get_u16, get_u32, get_u64, decoded,
}
use site_repair_cast.Protocol.Control.Header.{
  ControlType, register, section_status, repair_begin, receiver_complete, complete_ack,
  transfer_result, section_end, receiver_ready, session_end, file_meta, meta_ready,
  central_file_meta, central_data, central_file_end, central_status, central_session_end,
  central_resume, backfill_begin, backfill_data, backfill_end, peer_repair_task, is_type,
  write_control_header, read_control_header, is_valid_file_name, write_file_name, read_file_name,
}
use site_repair_cast.Protocol.Packet.{sha256_size, payload_limit}

pub record BackfillBeginMessage : Type 0 where
  pub transfer_id : ℕ
  pub total_blocks : ℕ

unfoldable pub encode_backfill_begin : BackfillBeginMessage → List ℕ
encode_backfill_begin m =
    written
      (write_control_header backfill_begin (put_u64 m.transfer_id ∷ put_u32 m.total_blocks ∷ []))

backfill_begin_body : Reader BackfillBeginMessage
backfill_begin_body = do
  size ← remaining
  throw_unless (size == 20) invalid_size
  type ← read_control_header
  throw_unless (is_type backfill_begin type) unexpected_type
  transfer_id ← get_u64
  total_blocks ← get_u32
  return (record { transfer_id = transfer_id; total_blocks = total_blocks })

unfoldable pub decode_backfill_begin : List ℕ → Result BackfillBeginMessage
unfolding backfill_begin_body
decode_backfill_begin frame = decoded (backfill_begin_body frame)

pub record BackfillDataMessage : Type 0 where
  pub transfer_id : ℕ
  pub block_id : ℕ
  pub offset : ℕ
  pub payload_size : ℕ
  pub crc32 : ℕ
  pub payload : List ℕ

unfoldable pub encode_backfill_data : BackfillDataMessage → Result (List ℕ)
encode_backfill_data m =
    if leb (length m.payload) payload_limit && length m.payload == m.payload_size
    then ok (
        written (
          write_control_header backfill_data (
            put_u64 m.transfer_id
            ∷ put_u32 m.block_id
            ∷ put_u64 m.offset
            ∷ put_u16 m.payload_size
            ∷ put_u16 0
            ∷ put_u32 m.crc32
            ∷ m.payload
            ∷ [])))
    else err invalid_payload_size

backfill_data_body : Reader BackfillDataMessage
backfill_data_body = do
  size ← remaining
  throw_unless (leb 36 size) invalid_size
  type ← read_control_header
  throw_unless (is_type backfill_data type) unexpected_type
  transfer_id ← get_u64
  block_id ← get_u32
  offset ← get_u64
  payload_size ← get_u16
  _ ← get_u16
  crc32 ← get_u32
  left ← remaining
  throw_unless (leb payload_size payload_limit && payload_size == left) invalid_payload_size
  payload ← get_bytes payload_size
  return (record {
    transfer_id = transfer_id;
    block_id = block_id;
    offset = offset;
    payload_size = payload_size;
    crc32 = crc32;
    payload = payload;
  })

unfoldable pub decode_backfill_data : List ℕ → Result BackfillDataMessage
unfolding backfill_data_body
decode_backfill_data frame = decoded (backfill_data_body frame)

pub record BackfillEndMessage : Type 0 where
  pub transfer_id : ℕ
  pub file_size : ℕ
  pub total_blocks : ℕ
  pub sha256 : List ℕ

unfoldable pub encode_backfill_end : BackfillEndMessage → List ℕ
encode_backfill_end m = written (
    write_control_header backfill_end
      (put_u64 m.transfer_id ∷ put_u64 m.file_size ∷ put_u32 m.total_blocks ∷ m.sha256 ∷ []))

backfill_end_body : Reader BackfillEndMessage
backfill_end_body = do
  size ← remaining
  throw_unless (size == 60) invalid_size
  type ← read_control_header
  throw_unless (is_type backfill_end type) unexpected_type
  transfer_id ← get_u64
  file_size ← get_u64
  total_blocks ← get_u32
  sha256 ← get_bytes sha256_size
  return (record {
    transfer_id = transfer_id;
    file_size = file_size;
    total_blocks = total_blocks;
    sha256 = sha256;
  })

unfoldable pub decode_backfill_end : List ℕ → Result BackfillEndMessage
unfolding backfill_end_body
decode_backfill_end frame = decoded (backfill_end_body frame)

-- `kMaxPeerRepairBlocks`.
abbrev pub peer_block_limit : ℕ
peer_block_limit = 64

pub record PeerRepairTaskMessage : Type 0 where
  pub transfer_id : ℕ
  pub section_id : ℕ
  pub round_id : ℕ
  pub task_id : ℕ
  pub target_ipv4 : ℕ
  pub target_port : ℕ
  pub block_ids : List ℕ

-- `for(block_id:block_ids)writer.u32(block_id)`.
pub put_block_ids : List ℕ → List ℕ
put_block_ids [] = []
put_block_ids (b ∷ bs) = put_u32 b ++ put_block_ids bs

pub get_block_ids : ℕ → Reader (List ℕ)
get_block_ids zero = return []
get_block_ids (suc n) = do b ← get_u32; bs ← get_block_ids n; return (b ∷ bs)

unfoldable pub encode_peer_repair_task : PeerRepairTaskMessage → Result (List ℕ)
unfolding put_block_ids
encode_peer_repair_task m =
    if length m.block_ids == 0 || ltb peer_block_limit (length m.block_ids)
    then err invalid_block_count
    else ok (
        written (
          write_control_header peer_repair_task (
            put_u64 m.transfer_id
            ∷ put_u32 m.section_id
            ∷ put_u32 m.round_id
            ∷ put_u64 m.task_id
            ∷ put_u32 m.target_ipv4
            ∷ put_u16 m.target_port
            ∷ put_u16 0
            ∷ put_u32 (length m.block_ids)
            ∷ put_block_ids m.block_ids
            ∷ [])))

peer_repair_task_body : Reader PeerRepairTaskMessage
peer_repair_task_body = do
  size ← remaining
  throw_unless (leb 44 size) invalid_size
  type ← read_control_header
  throw_unless (is_type peer_repair_task type) unexpected_type
  transfer_id ← get_u64
  section_id ← get_u32
  round_id ← get_u32
  task_id ← get_u64
  target_ipv4 ← get_u32
  target_port ← get_u16
  _ ← get_u16
  block_count ← get_u32
  left ← remaining
  throw_unless (leb 1 block_count && leb block_count peer_block_limit && left == block_count * 4)
      invalid_block_list
  block_ids ← get_block_ids block_count
  return (record {
    transfer_id = transfer_id;
    section_id = section_id;
    round_id = round_id;
    task_id = task_id;
    target_ipv4 = target_ipv4;
    target_port = target_port;
    block_ids = block_ids;
  })

unfoldable pub decode_peer_repair_task : List ℕ → Result PeerRepairTaskMessage
unfolding peer_repair_task_body get_block_ids
decode_peer_repair_task frame = decoded (peer_repair_task_body frame)
