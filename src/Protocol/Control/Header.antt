-- ===== src/Protocol/Control/Header.antt =====
-- The eight bytes before every control message, and the file name field.
pub mod Laws
use site_repair_cast.Common.{
  ℕ, ◌-◌, ◌*◌, Bool, ◌&&◌, not, List, [], ◌∷◌, length, get_or, leb, ◌==◌, Result, invalid_file_name,
  invalid_magic, unsupported_version, invalid_type,
}
use site_repair_cast.Protocol.Bytes.{
  put_u16, put_u32, written, Reader, ◌>>=◌, ◌>>◌, return, throw_unless, remaining, get_bytes,
  get_u16, get_u32, decoded,
}
use site_repair_cast.Protocol.Packet.{version}

abbrev pub control_magic : ℕ
control_magic = 0x53524343

-- `kMaxFileNameSize`, `kMaxControlFrameSize`.
abbrev pub file_name_limit : ℕ
file_name_limit = 255

abbrev pub control_frame_limit : ℕ
control_frame_limit = 1024 * 1024

pub data ControlType : Type 0 where
  register section_status repair_begin receiver_complete complete_ack : ControlType
  transfer_result section_end receiver_ready session_end file_meta meta_ready : ControlType
  central_file_meta central_data central_file_end central_status : ControlType
  central_session_end central_resume backfill_begin backfill_data backfill_end : ControlType
  peer_repair_task : ControlType

abbrev pub control_code : ControlType → ℕ
control_code register = 1
control_code section_status = 2
control_code repair_begin = 3
control_code receiver_complete = 4
control_code complete_ack = 5
control_code transfer_result = 6
control_code section_end = 7
control_code receiver_ready = 8
control_code session_end = 9
control_code file_meta = 10
control_code meta_ready = 11
control_code central_file_meta = 12
control_code central_data = 13
control_code central_file_end = 14
control_code central_status = 15
control_code central_session_end = 16
control_code central_resume = 17
control_code backfill_begin = 18
control_code backfill_data = 19
control_code backfill_end = 20
control_code peer_repair_task = 21

abbrev control_types : List ControlType
control_types =
    register ∷ section_status ∷ repair_begin ∷ receiver_complete ∷ complete_ack ∷ transfer_result
    ∷ section_end ∷ receiver_ready ∷ session_end ∷ file_meta ∷ meta_ready ∷ central_file_meta
    ∷ central_data ∷ central_file_end ∷ central_status ∷ central_session_end ∷ central_resume
    ∷ backfill_begin ∷ backfill_data ∷ backfill_end ∷ peer_repair_task ∷ []

-- `static_cast<ControlType>` of a code that the range test has let through.
abbrev pub control_type_of : ℕ → ControlType
control_type_of raw = get_or control_types (raw - 1) register

abbrev pub is_type : ControlType → ControlType → Bool
is_type expected type = control_code type == control_code expected

-- The calls of `write_control_header`, before those of the message.
abbrev pub write_control_header : ControlType → List (List ℕ) → List (List ℕ)
write_control_header type calls =
    put_u32 control_magic ∷ put_u16 version ∷ put_u16 (control_code type) ∷ calls

unfoldable pub read_control_header : Reader ControlType
read_control_header = do
  magic ← get_u32
  found_version ← get_u16
  raw_type ← get_u16
  throw_unless (magic == control_magic) invalid_magic
  throw_unless (found_version == version) unsupported_version
  throw_unless (leb 1 raw_type && leb raw_type 21) invalid_type
  return (control_type_of raw_type)

unfoldable pub peek_control_type : List ℕ → Result ControlType
unfolding read_control_header
peek_control_type frame = decoded (read_control_header frame)

-- `validate_file_name_field`, as the test that it throws on.
abbrev pub is_valid_file_name : List ℕ → Bool
is_valid_file_name name = not (length name == 0) && leb (length name) file_name_limit

-- The bytes of the two calls of `write_file_name`.
abbrev pub write_file_name : List ℕ → List ℕ
write_file_name name = written (put_u16 (length name) ∷ name ∷ [])

unfoldable pub read_file_name : Reader (List ℕ)
read_file_name = do
  size ← get_u16
  left ← remaining
  throw_unless (not (size == 0) && leb size file_name_limit && leb size left) invalid_file_name
  get_bytes size
