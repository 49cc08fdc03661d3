-- ===== src/Protocol/Control/Proxy/RoundTrip.antt =====
-- Round trips of the messages of Proxy.antt. `...Fits` states the ranges of the C++ types, and what
-- the encoder asks of its argument.
use site_repair_cast.Common.{◌+◌, ◌^◌, ◌<◌, ◌≤◌, ◌≡◌, length, arith, true, leb, ok, ◌>>=◌}
use site_repair_cast.Protocol.Bytes.Laws.{wire, long_wire}
use site_repair_cast.Protocol.Control.Header.{read_control_header, is_valid_file_name}
use site_repair_cast.Protocol.Control.Header.Laws.{read_file_name_lem}
use site_repair_cast.Protocol.Control.Proxy.{
  FileMetaMessage, encode_file_meta, decode_file_meta, RepairBeginMessage, encode_repair_begin,
  decode_repair_begin, CompleteAckMessage, encode_complete_ack, decode_complete_ack,
  TransferResultMessage, encode_transfer_result, decode_transfer_result, SectionEndMessage,
  encode_section_end, decode_section_end,
}

abbrev pub FileMetaFits : FileMetaMessage → Type 0
FileMetaFits m =
    (m.transfer_id < 2 ^ 64)
    × (m.section_id < 2 ^ 32)
    × (m.file_size < 2 ^ 64)
    × (m.block_size < 2 ^ 32)
    × (m.total_blocks < 2 ^ 32)
    × (m.section_block_count < 2 ^ 32)
    × (1 ≤ length m.file_name)
    × (length m.file_name ≤ 255)
    × (length m.sha256 ≡ 32)

-- A FILE_META message whose integers are within their C++ types, with a name of 1 to 255 bytes and
-- a digest of 32 bytes, is encoded without an error and decoded to the same message.
pub decode_file_meta-encode_file_meta :
    (m : FileMetaMessage) → FileMetaFits m → (encode_file_meta m >>= decode_file_meta) ≡ ok m
unfolding encode_file_meta decode_file_meta read_control_header
decode_file_meta-encode_file_meta m h =
    let named : is_valid_file_name m.file_name ≡ true = ground arith in
    let long : leb 74 (42 + length m.file_name + 32) ≡ true = ground arith in
    simp (long_wire, named, long, h.8, read_file_name_lem m.file_name _ named) (ground arith)

abbrev pub RepairBeginFits : RepairBeginMessage → Type 0
RepairBeginFits m = (m.transfer_id < 2 ^ 64) × (m.section_id < 2 ^ 32) × (m.round_id < 2 ^ 32)

-- A REPAIR_BEGIN message whose integers are within their C++ types is decoded to the same message.
pub decode_repair_begin-encode_repair_begin :
    (m : RepairBeginMessage)
    → RepairBeginFits m
    → decode_repair_begin (encode_repair_begin m) ≡ ok m
unfolding encode_repair_begin decode_repair_begin read_control_header
decode_repair_begin-encode_repair_begin m h = simp wire (ground arith)

abbrev pub CompleteAckFits : CompleteAckMessage → Type 0
CompleteAckFits m = m.transfer_id < 2 ^ 64

-- A COMPLETE_ACK message whose integers are within their C++ types is decoded to the same message.
pub decode_complete_ack-encode_complete_ack :
    (m : CompleteAckMessage)
    → CompleteAckFits m
    → decode_complete_ack (encode_complete_ack m) ≡ ok m
unfolding encode_complete_ack decode_complete_ack read_control_header
decode_complete_ack-encode_complete_ack m h = simp wire (ground arith)

abbrev pub TransferResultFits : TransferResultMessage → Type 0
TransferResultFits m = m.transfer_id < 2 ^ 64

-- A TRANSFER_RESULT message whose integers are within their C++ types is decoded to the same
-- message.
pub decode_transfer_result-encode_transfer_result :
    (m : TransferResultMessage)
    → TransferResultFits m
    → decode_transfer_result (encode_transfer_result m) ≡ ok m
unfolding encode_transfer_result decode_transfer_result read_control_header
decode_transfer_result-encode_transfer_result m h = simp wire (ground arith)

abbrev pub SectionEndFits : SectionEndMessage → Type 0
SectionEndFits m =
    (m.transfer_id < 2 ^ 64)
    × (m.section_id < 2 ^ 32)
    × (m.round_id < 2 ^ 32)
    × (m.total_blocks < 2 ^ 32)

-- A SECTION_END message whose integers are within their C++ types is decoded to the same message.
pub decode_section_end-encode_section_end :
    (m : SectionEndMessage) → SectionEndFits m → decode_section_end (encode_section_end m) ≡ ok m
unfolding encode_section_end decode_section_end read_control_header
decode_section_end-encode_section_end m h = simp wire (ground arith)
