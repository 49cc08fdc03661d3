-- ===== src/Protocol/Packet/RoundTrip.antt =====
-- What a receiver reads from the packets that the proxy writes. `...Fits` states the ranges of the
-- C++ types, and what the encoder asks of its arguments.
use site_repair_cast.Common.{
  Result, ℕ, ◌%◌, ◌^◌, ◌<◌, ◌≤◌, ◌≡◌, false, true, List, [], ltb, leb, length, arith, ok, ◌>>=◌,
}
use site_repair_cast.Protocol.Bytes.Laws.{wire, long_wire, get_bytes-append}
use site_repair_cast.Protocol.Packet.{
  MetaPacket, DataPacketView, EndPacket, meta, packet_data, end, payload_limit, encode_meta,
  decode_meta, encode_data, decode_data, encode_end, decode_end, read_common,
}

abbrev pub MetaFits : MetaPacket → Type 0
MetaFits p =
    (p.common.type ≡ meta)
    × (p.common.transfer_id < 2 ^ 64)
    × (p.file_size < 2 ^ 64)
    × (p.block_size < 2 ^ 32)
    × (p.total_blocks < 2 ^ 32)
    × (p.section_block_count < 2 ^ 32)
    × (length p.sha256 ≡ 32)
    × (p.file_name ≡ [])

-- A META packet whose fields are within their C++ types, of the META type, with a digest of 32
-- bytes and without a file name, is decoded to the same packet.
pub decode_meta-encode_meta : (p : MetaPacket) → MetaFits p → decode_meta (encode_meta p) ≡ ok p
unfolding encode_meta decode_meta read_common
decode_meta-encode_meta p h = simp (wire, get_bytes-append, h.6) (ground arith)

abbrev pub DataFits : DataPacketView → Type 0
DataFits p =
    (p.common.type ≡ packet_data)
    × (p.common.transfer_id < 2 ^ 64)
    × (p.section_id < 2 ^ 32)
    × (p.block_id < 2 ^ 32)
    × (p.offset < 2 ^ 64)
    × (p.payload_size ≡ length p.payload)
    × (length p.payload ≤ payload_limit)
    × (p.crc32 < 2 ^ 32)

abbrev pub encode_view : DataPacketView → Result (List ℕ)
encode_view p = encode_data p.common.transfer_id p.section_id p.block_id p.offset p.payload p.crc32

-- A DATA packet whose fields are within their C++ types, of the DATA type and with at most 1200
-- bytes of payload, is encoded without an error and decoded to the same packet.
pub decode_data-encode_data :
    (p : DataPacketView) → DataFits p → (encode_view p >>= decode_data) ≡ ok p
unfolding encode_data decode_data read_common
decode_data-encode_data p h =
    let fits : ltb payload_limit (length p.payload) ≡ false = ground arith in
    let small : leb (length p.payload) payload_limit ≡ true = ground arith in
    let size : length p.payload % 2 ^ 16 ≡ length p.payload = omega arith in
    simp (long_wire, fits, small, size) (ground arith)

abbrev pub EndFits : EndPacket → Type 0
EndFits p =
    (p.common.type ≡ end)
    × (p.common.transfer_id < 2 ^ 64)
    × (p.section_id < 2 ^ 32)
    × (p.round_id < 2 ^ 32)
    × (p.total_blocks < 2 ^ 32)

-- An END packet whose fields are within their C++ types, of the END type, is decoded to the same
-- packet.
pub decode_end-encode_end :
    (p : EndPacket)
    → EndFits p
    → decode_end (encode_end p.common.transfer_id p.section_id p.round_id p.total_blocks) ≡ ok p
unfolding encode_end decode_end read_common
decode_end-encode_end p h = simp wire (ground arith)
