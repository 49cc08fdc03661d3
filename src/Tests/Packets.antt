-- ===== src/Tests/Packets.antt =====
-- One packet of each kind, there and back, and the CRC-32 of the usual test vector.
use site_repair_cast.Checksum.{crc32}
use site_repair_cast.Common.{[], ◌∷◌, ok, ◌≡◌, ◌>>=◌, refl, arith, replicate}
use site_repair_cast.Protocol.Packet.{
  MetaPacket, DataPacketView, EndPacket, meta, packet_data, end, encode_meta, decode_meta,
  decode_data, encode_end, decode_end,
}
use site_repair_cast.Protocol.Packet.RoundTrip.{
  encode_view, decode_data-encode_data, decode_meta-encode_meta, decode_end-encode_end,
}

abbrev meta_packet : MetaPacket
meta_packet = record {
  common = record { type = meta; transfer_id = 7 };
  file_size = 3000;
  block_size = 1200;
  total_blocks = 3;
  section_block_count = 64;
  file_name = [];
  sha256 = replicate 32 0xab;
}

abbrev data_packet : DataPacketView
data_packet = record {
  common = record { type = packet_data; transfer_id = 7 };
  section_id = 0;
  block_id = 2;
  offset = 2400;
  payload_size = 3;
  crc32 = 0xcbf4_3926;
  payload = 1 ∷ 2 ∷ 3 ∷ [];
}

abbrev end_packet : EndPacket
end_packet = record {
  common = record { type = end; transfer_id = 7 };
  section_id = 0;
  round_id = 1;
  total_blocks = 3;
}

decode_meta-encode_meta_example : decode_meta (encode_meta meta_packet) ≡ ok meta_packet
decode_meta-encode_meta_example =
    decode_meta-encode_meta meta_packet
      (refl, omega arith, omega arith, omega arith, omega arith, omega arith, refl, refl)

decode_data-encode_data_example : (encode_view data_packet >>= decode_data) ≡ ok data_packet
decode_data-encode_data_example =
    decode_data-encode_data data_packet
      (refl, omega arith, omega arith, omega arith, omega arith, refl, omega arith, omega arith)

decode_end-encode_end_example : decode_end (encode_end 7 0 1 3) ≡ ok end_packet
decode_end-encode_end_example =
    decode_end-encode_end end_packet (refl, omega arith, omega arith, omega arith, omega arith)

crc32_of_digits :
    crc32 (0x31 ∷ 0x32 ∷ 0x33 ∷ 0x34 ∷ 0x35 ∷ 0x36 ∷ 0x37 ∷ 0x38 ∷ 0x39 ∷ []) ≡ 0xcbf4_3926
unfolding crc32
crc32_of_digits = refl
