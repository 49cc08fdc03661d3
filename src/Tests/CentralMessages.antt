-- ===== src/Tests/CentralMessages.antt =====
-- One message of each kind of Protocol/Control/Central, there and back.
use site_repair_cast.Common.{List, [], arith, ok, refl, replicate, ℕ, ◌>>=◌, ◌∷◌, ◌≡◌}
use site_repair_cast.Protocol.Control.Central.{
  CentralDataMessage, CentralFileEndMessage, CentralFileMetaMessage, CentralResumeMessage,
  CentralStatusMessage, cached, decode_central_data, decode_central_file_end,
  decode_central_file_meta, decode_central_resume, decode_central_status, encode_central_data,
  encode_central_file_end, encode_central_file_meta, encode_central_resume, encode_central_status,
}
use site_repair_cast.Protocol.Control.Central.RoundTrip.{
  decode_central_data-encode_central_data, decode_central_file_end-encode_central_file_end,
  decode_central_file_meta-encode_central_file_meta, decode_central_resume-encode_central_resume,
  decode_central_status-encode_central_status,
}

abbrev digest : List ℕ
digest = replicate 32 0xab

abbrev central_file_meta_message : CentralFileMetaMessage
central_file_meta_message = record {
  transfer_id = 0x1122_3344_5566_7788;
  file_size = 3000;
  block_size = 1200;
  total_blocks = 3;
  section_block_count = 64;
  file_name = 0x61 ∷ 0x2e ∷ 0x62 ∷ [];
  sha256 = digest;
}

decode_central_file_meta-encode_central_file_meta_run :
    (encode_central_file_meta central_file_meta_message >>= decode_central_file_meta)
    ≡ ok central_file_meta_message
decode_central_file_meta-encode_central_file_meta_run =
    decode_central_file_meta-encode_central_file_meta central_file_meta_message (
      omega arith,
      omega arith,
      omega arith,
      omega arith,
      omega arith,
      omega arith,
      omega arith,
      refl,
    )

abbrev central_data_message : CentralDataMessage
central_data_message = record {
  transfer_id = 0x1122_3344_5566_7788;
  section_id = 4;
  block_id = 1;
  offset = 1200;
  payload_size = 3;
  crc32 = 0xcbf4_3926;
  payload = 1 ∷ 2 ∷ 3 ∷ [];
}

decode_central_data-encode_central_data_run :
    (encode_central_data central_data_message >>= decode_central_data) ≡ ok central_data_message
decode_central_data-encode_central_data_run =
    decode_central_data-encode_central_data central_data_message
      (omega arith, omega arith, omega arith, omega arith, omega arith, refl, omega arith)

abbrev central_file_end_message : CentralFileEndMessage
central_file_end_message = record {
  transfer_id = 0x1122_3344_5566_7788;
  section_id = 4;
  total_blocks = 3;
}

decode_central_file_end-encode_central_file_end_run :
    decode_central_file_end (encode_central_file_end central_file_end_message)
    ≡ ok central_file_end_message
decode_central_file_end-encode_central_file_end_run =
    decode_central_file_end-encode_central_file_end central_file_end_message
      (omega arith, omega arith, omega arith)

abbrev central_status_message : CentralStatusMessage
central_status_message = record {
  transfer_id = 0x1122_3344_5566_7788;
  status = cached;
  file_size = 3000;
  sha256 = digest;
}

decode_central_status-encode_central_status_run :
    decode_central_status (encode_central_status central_status_message) ≡ ok central_status_message
decode_central_status-encode_central_status_run =
    decode_central_status-encode_central_status central_status_message
      (omega arith, omega arith, refl)

abbrev central_resume_message : CentralResumeMessage
central_resume_message = record {
  transfer_id = 0x1122_3344_5566_7788;
  next_section_id = 3;
  total_sections = 5;
  file_size = 3000;
  sha256 = digest;
}

decode_central_resume-encode_central_resume_run :
    decode_central_resume (encode_central_resume central_resume_message) ≡ ok central_resume_message
decode_central_resume-encode_central_resume_run =
    decode_central_resume-encode_central_resume central_resume_message
      (omega arith, omega arith, omega arith, omega arith, refl)
