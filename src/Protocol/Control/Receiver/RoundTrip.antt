-- ===== src/Protocol/Control/Receiver/RoundTrip.antt =====
-- Round trips of the messages of Receiver.antt. `...Fits` states the ranges of the C++ types, and what
-- the encoder asks of its argument.
use site_repair_cast.Common.{
  ◌^◌, ◌<◌, ◌≡◌, refl, length, arith, true, false, ◌&&◌, ltb, leb, ◌%◌, ok, ◌>>=◌,
}
use site_repair_cast.Protocol.Bytes.Laws.{wire, long_wire, get_bytes-append}
use site_repair_cast.Protocol.Control.Header.{read_control_header}
use site_repair_cast.Protocol.Control.Receiver.{
  RegisterMessage, encode_register, decode_register, MetaReadyMessage, encode_meta_ready,
  decode_meta_ready, ReceiverCompleteMessage, encode_receiver_complete, decode_receiver_complete,
  ReceiverReadyMessage, encode_receiver_ready, decode_receiver_ready, SectionStatusMessage,
  encode_section_status, decode_section_status, missing, complete, failed, SectionStatusCode,
  section_status_code,
}

section_status_code_fits :
    (s : SectionStatusCode) → section_status_code s % 2 ^ 16 ≡ section_status_code s
section_status_code_fits missing = refl
section_status_code_fits complete = refl
section_status_code_fits failed = refl

section_status_code_valid :
    (s : SectionStatusCode) → leb 1 (section_status_code s) && leb (section_status_code s) 3 ≡ true
section_status_code_valid missing = refl
section_status_code_valid complete = refl
section_status_code_valid failed = refl

abbrev pub RegisterFits : RegisterMessage → Type 0
RegisterFits m =
    (m.current_transfer_id < 2 ^ 64) × (m.udp_port < 2 ^ 16) × (m.peer_udp_port < 2 ^ 16)

-- A REGISTER message whose integers are within their C++ types is decoded to the same message.
pub decode_register-encode_register :
    (m : RegisterMessage) → RegisterFits m → decode_register (encode_register m) ≡ ok m
unfolding encode_register decode_register read_control_header
decode_register-encode_register m h = simp wire (ground arith)

abbrev pub MetaReadyFits : MetaReadyMessage → Type 0
MetaReadyFits m = m.transfer_id < 2 ^ 64

-- A META_READY message whose integers are within their C++ types is decoded to the same message.
pub decode_meta_ready-encode_meta_ready :
    (m : MetaReadyMessage) → MetaReadyFits m → decode_meta_ready (encode_meta_ready m) ≡ ok m
unfolding encode_meta_ready decode_meta_ready read_control_header
decode_meta_ready-encode_meta_ready m h = simp wire (ground arith)

abbrev pub ReceiverCompleteFits : ReceiverCompleteMessage → Type 0
ReceiverCompleteFits m = (m.transfer_id < 2 ^ 64) × (m.file_size < 2 ^ 64) × (length m.sha256 ≡ 32)

-- A RECEIVER_COMPLETE message whose integers are within their C++ types, with a digest of 32 bytes,
-- is decoded to the same message.
pub decode_receiver_complete-encode_receiver_complete :
    (m : ReceiverCompleteMessage)
    → ReceiverCompleteFits m
    → decode_receiver_complete (encode_receiver_complete m) ≡ ok m
unfolding encode_receiver_complete decode_receiver_complete read_control_header
decode_receiver_complete-encode_receiver_complete m h =
    simp (wire, get_bytes-append, h.2) (ground arith)

abbrev pub ReceiverReadyFits : ReceiverReadyMessage → Type 0
ReceiverReadyFits m = m.previous_transfer_id < 2 ^ 64

-- A RECEIVER_READY message whose integers are within their C++ types is decoded to the same
-- message.
pub decode_receiver_ready-encode_receiver_ready :
    (m : ReceiverReadyMessage)
    → ReceiverReadyFits m
    → decode_receiver_ready (encode_receiver_ready m) ≡ ok m
unfolding encode_receiver_ready decode_receiver_ready read_control_header
decode_receiver_ready-encode_receiver_ready m h = simp wire (ground arith)

abbrev pub SectionStatusFits : SectionStatusMessage → Type 0
SectionStatusFits m =
    (m.transfer_id < 2 ^ 64)
    × (m.section_id < 2 ^ 32)
    × (m.round_id < 2 ^ 32)
    × (m.missing_count < 2 ^ 32)
    × (length m.missing_bitmap < 2 ^ 32)

-- A SECTION_STATUS message whose integers are within their C++ types and whose bitmap is shorter
-- than 2^32 bytes is encoded without an error and decoded to the same message.
pub decode_section_status-encode_section_status :
    (m : SectionStatusMessage)
    → SectionStatusFits m
    → (encode_section_status m >>= decode_section_status) ≡ ok m
unfolding encode_section_status decode_section_status read_control_header
decode_section_status-encode_section_status m h =
    let fits : ltb 0xffff_ffff (length m.missing_bitmap) ≡ false = ground arith in
    let size : length m.missing_bitmap % 2 ^ 32 ≡ length m.missing_bitmap = omega arith in
    simp (long_wire, fits, size, section_status_code_fits, section_status_code_valid) (ground arith)
