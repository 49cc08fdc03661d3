-- ===== src/Protocol/Control/Receiver.antt =====
-- Messages from a receiver to its proxy.
pub mod RoundTrip
use site_repair_cast.Common.{
  ℕ, ◌+◌, ◌*◌, Bool, ◌&&◌, List, [], ◌∷◌, length, ltb, leb, ◌==◌, if◌then◌else◌, Error, Result, ok,
  err, invalid_file_name, invalid_size, unexpected_type, invalid_code, bitmap_too_large,
  invalid_bitmap_length, invalid_payload_size, invalid_block_count, invalid_block_list,
}
use site_repair_cast.Protocol.Bytes.{
  put_u16, put_u32, put_u64, written, Reader, and_then, ◌>>=◌, ◌>>◌, return, throw_unless,
  remaining, get_bytes, get_u16, get_u32, get_u64, decoded,
}
use site_repair_cast.Protocol.Control.Header.{
  ControlType, register, section_status, repair_begin, receiver_complete, complete_ack,
  transfer_result, section_end, receiver_ready, session_end, file_meta, meta_ready,
  central_file_meta, central_data, central_file_end, central_status, central_session_end,
  central_resume, backfill_begin, backfill_data, backfill_end, peer_repair_task, is_type,
  write_control_header, read_control_header, is_valid_file_name, write_file_name, read_file_name,
}
use site_repair_cast.Protocol.Packet.{sha256_size, payload_limit}

pub data ReceiverState : Type 0 where
  idle receiving completed : ReceiverState

abbrev pub receiver_state_code : ReceiverState → ℕ
receiver_state_code idle = 1
receiver_state_code receiving = 2
receiver_state_code completed = 3

-- The cast of a code that the range test has let through.
abbrev pub receiver_state_of : ℕ → ReceiverState
receiver_state_of raw = if raw == 1 then idle else if raw == 2 then receiving else completed

pub data SectionStatusCode : Type 0 where
  missing complete failed : SectionStatusCode

abbrev pub section_status_code : SectionStatusCode → ℕ
section_status_code missing = 1
section_status_code complete = 2
section_status_code failed = 3

-- The cast of a code that the range test has let through.
abbrev pub section_status_of : ℕ → SectionStatusCode
section_status_of raw = if raw == 1 then missing else if raw == 2 then complete else failed

pub record RegisterMessage : Type 0 where
  pub current_transfer_id : ℕ
  pub udp_port : ℕ
  pub peer_udp_port : ℕ
  pub state : ReceiverState

unfoldable pub encode_register : RegisterMessage → List ℕ
encode_register m = written (
    write_control_header register (
      put_u64 m.current_transfer_id
      ∷ put_u16 m.udp_port
      ∷ put_u16 m.peer_udp_port
      ∷ put_u16 (receiver_state_code m.state)
      ∷ []))

register_body : Reader RegisterMessage
register_body = do
  size ← remaining
  throw_unless (size == 22) invalid_size
  type ← read_control_header
  throw_unless (is_type register type) unexpected_type
  current_transfer_id ← get_u64
  udp_port ← get_u16
  peer_udp_port ← get_u16
  raw_state ← get_u16
  throw_unless (leb 1 raw_state && leb raw_state 3) invalid_code
  return (record {
    current_transfer_id = current_transfer_id;
    udp_port = udp_port;
    peer_udp_port = peer_udp_port;
    state = receiver_state_of raw_state;
  })

unfoldable pub decode_register : List ℕ → Result RegisterMessage
unfolding register_body
decode_register frame = decoded (register_body frame)

pub record MetaReadyMessage : Type 0 where
  pub transfer_id : ℕ

unfoldable pub encode_meta_ready : MetaReadyMessage → List ℕ
encode_meta_ready m = written (write_control_header meta_ready (put_u64 m.transfer_id ∷ []))

meta_ready_body : Reader MetaReadyMessage
meta_ready_body = do
  size ← remaining
  throw_unless (size == 16) invalid_size
  type ← read_control_header
  throw_unless (is_type meta_ready type) unexpected_type
  transfer_id ← get_u64
  return (record { transfer_id = transfer_id })

unfoldable pub decode_meta_ready : List ℕ → Result MetaReadyMessage
unfolding meta_ready_body
decode_meta_ready frame = decoded (meta_ready_body frame)

pub record SectionStatusMessage : Type 0 where
  pub transfer_id : ℕ
  pub section_id : ℕ
  pub round_id : ℕ
  pub status : SectionStatusCode
  pub missing_count : ℕ
  pub missing_bitmap : List ℕ

unfoldable pub encode_section_status : SectionStatusMessage → Result (List ℕ)
encode_section_status m =
    if ltb 0xffff_ffff (length m.missing_bitmap)
    then err bitmap_too_large
    else ok (
        written (
          write_control_header section_status (
            put_u64 m.transfer_id
            ∷ put_u32 m.section_id
            ∷ put_u32 m.round_id
            ∷ put_u16 (section_status_code m.status)
            ∷ put_u16 0
            ∷ put_u32 m.missing_count
            ∷ put_u32 (length m.missing_bitmap)
            ∷ m.missing_bitmap
            ∷ [])))

section_status_body : Reader SectionStatusMessage
section_status_body = do
  size ← remaining
  throw_unless (leb 36 size) invalid_size
  type ← read_control_header
  throw_unless (is_type section_status type) unexpected_type
  transfer_id ← get_u64
  section_id ← get_u32
  round_id ← get_u32
  raw_status ← get_u16
  _ ← get_u16
  missing_count ← get_u32
  bitmap_size ← get_u32
  throw_unless (leb 1 raw_status && leb raw_status 3) invalid_code
  left ← remaining
  throw_unless (bitmap_size == left) invalid_bitmap_length
  missing_bitmap ← get_bytes bitmap_size
  return (record {
    transfer_id = transfer_id;
    section_id = section_id;
    round_id = round_id;
    status = section_status_of raw_status;
    missing_count = missing_count;
    missing_bitmap = missing_bitmap;
  })

unfoldable pub decode_section_status : List ℕ → Result SectionStatusMessage
unfolding section_status_body
decode_section_status frame = decoded (section_status_body frame)

pub record ReceiverCompleteMessage : Type 0 where
  pub transfer_id : ℕ
  pub file_size : ℕ
  pub sha256 : List ℕ

unfoldable pub encode_receiver_complete : ReceiverCompleteMessage → List ℕ
encode_receiver_complete m = written (
    write_control_header receiver_complete
      (put_u64 m.transfer_id ∷ put_u64 m.file_size ∷ m.sha256 ∷ []))

receiver_complete_body : Reader ReceiverCompleteMessage
receiver_complete_body = do
  size ← remaining
  throw_unless (size == 56) invalid_size
  type ← read_control_header
  throw_unless (is_type receiver_complete type) unexpected_type
  transfer_id ← get_u64
  file_size ← get_u64
  sha256 ← get_bytes sha256_size
  return (record { transfer_id = transfer_id; file_size = file_size; sha256 = sha256 })

unfoldable pub decode_receiver_complete : List ℕ → Result ReceiverCompleteMessage
unfolding receiver_complete_body
decode_receiver_complete frame = decoded (receiver_complete_body frame)

pub record ReceiverReadyMessage : Type 0 where
  pub previous_transfer_id : ℕ

unfoldable pub encode_receiver_ready : ReceiverReadyMessage → List ℕ
encode_receiver_ready m =
    written (write_control_header receiver_ready (put_u64 m.previous_transfer_id ∷ []))

receiver_ready_body : Reader ReceiverReadyMessage
receiver_ready_body = do
  size ← remaining
  throw_unless (size == 16) invalid_size
  type ← read_control_header
  throw_unless (is_type receiver_ready type) unexpected_type
  previous_transfer_id ← get_u64
  return (record { previous_transfer_id = previous_transfer_id })

unfoldable pub decode_receiver_ready : List ℕ → Result ReceiverReadyMessage
unfolding receiver_ready_body
decode_receiver_ready frame = decoded (receiver_ready_body frame)
