-- ===== src/Protocol/Control/Central/RoundTrip.antt =====
-- Round trips of the messages of Central.antt. `...Fits` states the ranges of the C++ types, and what
-- the encoder asks of its argument.
use site_repair_cast.Common.{
  ◌+◌, ◌^◌, ◌<◌, ◌≤◌, ◌≡◌, refl, length, arith, true, ◌&&◌, leb, ◌%◌, ok, ◌>>=◌,
}
use site_repair_cast.Protocol.Bytes.Laws.{wire, long_wire, get_bytes-append}
use site_repair_cast.Protocol.Control.Central.{
  CentralFileMetaMessage, encode_central_file_meta, decode_central_file_meta, CentralFileEndMessage,
  encode_central_file_end, decode_central_file_end, CentralStatusMessage, encode_central_status,
  decode_central_status, CentralResumeMessage, encode_central_resume, decode_central_resume,
  CentralDataMessage, encode_central_data, decode_central_data, cached, failed, CentralStatusCode,
  central_status_code,
}
use site_repair_cast.Protocol.Control.Header.{read_control_header, is_valid_file_name}
use site_repair_cast.Protocol.Control.Header.Laws.{read_file_name_lem}
use site_repair_cast.Protocol.Packet.{payload_limit}

central_status_code_fits :
    (s : CentralStatusCode) → central_status_code s % 2 ^ 16 ≡ central_status_code s
central_status_code_fits cached = refl
central_status_code_fits failed = refl

central_status_code_valid :
    (s : CentralStatusCode) → leb 1 (central_status_code s) && leb (central_status_code s) 2 ≡ true
central_status_code_valid cached = refl
central_status_code_valid failed = refl

abbrev pub CentralFileMetaFits : CentralFileMetaMessage → Type 0
CentralFileMetaFits m =
    (m.transfer_id < 2 ^ 64)
    × (m.file_size < 2 ^ 64)
    × (m.block_size < 2 ^ 32)
    × (m.total_blocks < 2 ^ 32)
    × (m.section_block_count < 2 ^ 32)
    × (1 ≤ length m.file_name)
    × (length m.file_name ≤ 255)
    × (length m.sha256 ≡ 32)

-- A CENTRAL_FILE_META message whose integers are within their C++ types, with a name of 1 to 255
-- bytes and a digest of 32 bytes, is encoded without an error and decoded to the same message.
pub decode_central_file_meta-encode_central_file_meta :
    (m : CentralFileMetaMessage)
    → CentralFileMetaFits m
    → (encode_central_file_meta m >>= decode_central_file_meta) ≡ ok m
unfolding encode_central_file_meta decode_central_file_meta read_control_header
decode_central_file_meta-encode_central_file_meta m h =
    let named : is_valid_file_name m.file_name ≡ true = ground arith in
    let long : leb 70 (38 + length m.file_name + 32) ≡ true = ground arith in
    simp (long_wire, named, long, h.7, read_file_name_lem m.file_name _ named) (ground arith)

abbrev pub CentralFileEndFits : CentralFileEndMessage → Type 0
CentralFileEndFits m =
    (m.transfer_id < 2 ^ 64) × (m.section_id < 2 ^ 32) × (m.total_blocks < 2 ^ 32)

-- A CENTRAL_FILE_END message whose integers are within their C++ types is decoded to the same
-- message.
pub decode_central_file_end-encode_central_file_end :
    (m : CentralFileEndMessage)
    → CentralFileEndFits m
    → decode_central_file_end (encode_central_file_end m) ≡ ok m
unfolding encode_central_file_end decode_central_file_end read_control_header
decode_central_file_end-encode_central_file_end m h = simp wire (ground arith)

abbrev pub CentralStatusFits : CentralStatusMessage → Type 0
CentralStatusFits m = (m.transfer_id < 2 ^ 64) × (m.file_size < 2 ^ 64) × (length m.sha256 ≡ 32)

-- A CENTRAL_STATUS message whose integers are within their C++ types, with a digest of 32 bytes, is
-- decoded to the same message.
pub decode_central_status-encode_central_status :
    (m : CentralStatusMessage)
    → CentralStatusFits m
    → decode_central_status (encode_central_status m) ≡ ok m
unfolding encode_central_status decode_central_status read_control_header
decode_central_status-encode_central_status m h =
    simp (wire, get_bytes-append, h.2, central_status_code_fits, central_status_code_valid)
      (ground arith)

abbrev pub CentralResumeFits : CentralResumeMessage → Type 0
CentralResumeFits m =
    (m.transfer_id < 2 ^ 64)
    × (m.next_section_id < 2 ^ 32)
    × (m.total_sections < 2 ^ 32)
    × (m.file_size < 2 ^ 64)
    × (length m.sha256 ≡ 32)

-- A CENTRAL_RESUME message whose integers are within their C++ types, with a digest of 32 bytes, is
-- decoded to the same message.
pub decode_central_resume-encode_central_resume :
    (m : CentralResumeMessage)
    → CentralResumeFits m
    → decode_central_resume (encode_central_resume m) ≡ ok m
unfolding encode_central_resume decode_central_resume read_control_header
decode_central_resume-encode_central_resume m h = simp (wire, get_bytes-append, h.4) (ground arith)

abbrev pub CentralDataFits : CentralDataMessage → Type 0
CentralDataFits m =
    (m.transfer_id < 2 ^ 64)
    × (m.section_id < 2 ^ 32)
    × (m.block_id < 2 ^ 32)
    × (m.offset < 2 ^ 64)
    × (m.crc32 < 2 ^ 32)
    × (m.payload_size ≡ length m.payload)
    × (length m.payload ≤ payload_limit)

-- A CENTRAL_DATA message whose integers are within their C++ types, with at most 1200 bytes of
-- payload and their number as its payload size, is encoded without an error and decoded to the same
-- message.
pub decode_central_data-encode_central_data :
    (m : CentralDataMessage)
    → CentralDataFits m
    → (encode_central_data m >>= decode_central_data) ≡ ok m
unfolding encode_central_data decode_central_data read_control_header
decode_central_data-encode_central_data m h =
    let small : leb (length m.payload) payload_limit ≡ true = ground arith in
    let declared : m.payload_size ≡ length m.payload = omega arith in
    let size : length m.payload % 2 ^ 16 ≡ length m.payload = omega arith in
    simp (long_wire, declared, small, size) (ground arith)
