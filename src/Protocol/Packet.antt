-- ===== src/Protocol/Packet.antt =====
-- The UDP packets: the common header, META, DATA and END.
pub mod RoundTrip
pub mod Sizes
use site_repair_cast.Common.{
  ℕ, ◌+◌, ◌<◌, ◌≤◌, ◌≡◌, Bool, ◌&&◌, ◌||◌, List, [], ◌∷◌, length, ltb, leb, ◌==◌, if◌then◌else◌,
  Error, Result, ok, err, invalid_magic, unsupported_version, invalid_type, invalid_size,
  unexpected_type, payload_too_large, invalid_payload_size,
}
use site_repair_cast.Protocol.Bytes.{
  put_u16, put_u32, put_u64, written, Reader, and_then, ◌>>=◌, ◌>>◌, return, throw_unless,
  remaining, get_bytes, get_u16, get_u32, get_u64, decoded,
}

abbrev pub packet_magic : ℕ
packet_magic = 0x53524331

abbrev pub version : ℕ
version = 10

-- `kPayloadSize`, `kSha256Size`.
abbrev pub payload_limit : ℕ
payload_limit = 1200

abbrev pub sha256_size : ℕ
sha256_size = 32

abbrev pub meta_packet_size : ℕ
meta_packet_size = 16 + 8 + 4 + 4 + 4 + sha256_size

abbrev pub data_header_size : ℕ
data_header_size = 16 + 4 + 4 + 8 + 2 + 2 + 4

abbrev pub end_packet_size : ℕ
end_packet_size = 16 + 4 + 4 + 4

pub data PacketType : Type 0 where
  meta packet_data end : PacketType

abbrev pub packet_code : PacketType → ℕ
packet_code meta = 1
packet_code packet_data = 2
packet_code end = 3

-- `static_cast<PacketType>` of a code that the range test has let through.
abbrev pub packet_type_of : ℕ → PacketType
packet_type_of raw = if raw == 1 then meta else if raw == 2 then packet_data else end

abbrev pub is_meta : PacketType → Bool
is_meta t = packet_code t == 1

abbrev pub is_data : PacketType → Bool
is_data t = packet_code t == 2

abbrev pub is_end : PacketType → Bool
is_end t = packet_code t == 3

pub record CommonHeader : Type 0 where
  pub type : PacketType
  pub transfer_id : ℕ

-- `file_name` is not on the wire: `encode_meta` skips it and `decode_meta` leaves it empty.
pub record MetaPacket : Type 0 where
  pub common : CommonHeader
  pub file_size : ℕ
  pub block_size : ℕ
  pub total_blocks : ℕ
  pub section_block_count : ℕ
  pub file_name : List ℕ
  pub sha256 : List ℕ

pub record DataPacketView : Type 0 where
  pub common : CommonHeader
  pub section_id : ℕ
  pub block_id : ℕ
  pub offset : ℕ
  pub payload_size : ℕ
  pub crc32 : ℕ
  pub payload : List ℕ

pub record EndPacket : Type 0 where
  pub common : CommonHeader
  pub section_id : ℕ
  pub round_id : ℕ
  pub total_blocks : ℕ

-- The calls of `write_common`, in order, before those of the packet.
abbrev pub write_common : PacketType → ℕ → List (List ℕ) → List (List ℕ)
write_common type transfer_id calls =
    put_u32 packet_magic
    ∷ put_u16 version
    ∷ put_u16 (packet_code type)
    ∷ put_u64 transfer_id
    ∷ calls

unfoldable pub read_common : Reader CommonHeader
read_common = do
  magic ← get_u32
  found_version ← get_u16
  raw_type ← get_u16
  transfer_id ← get_u64
  throw_unless (magic == packet_magic) invalid_magic
  throw_unless (found_version == version) unsupported_version
  throw_unless (leb 1 raw_type && leb raw_type 3) invalid_type
  return (record { type = packet_type_of raw_type; transfer_id = transfer_id })

unfoldable pub encode_meta : MetaPacket → List ℕ
encode_meta p = written (
    write_common meta p.common.transfer_id (
      put_u64 p.file_size
      ∷ put_u32 p.block_size
      ∷ put_u32 p.total_blocks
      ∷ put_u32 p.section_block_count
      ∷ p.sha256
      ∷ []))

meta_body : Reader MetaPacket
meta_body = do
  size ← remaining
  throw_unless (size == meta_packet_size) invalid_size
  common ← read_common
  throw_unless (is_meta common.type) unexpected_type
  file_size ← get_u64
  block_size ← get_u32
  total_blocks ← get_u32
  section_block_count ← get_u32
  sha256 ← get_bytes sha256_size
  return (record {
    common = common;
    file_size = file_size;
    block_size = block_size;
    total_blocks = total_blocks;
    section_block_count = section_block_count;
    file_name = [];
    sha256 = sha256;
  })

unfoldable pub decode_meta : List ℕ → Result MetaPacket
unfolding meta_body
decode_meta bytes = decoded (meta_body bytes)

-- `payload` points at `payload_size` bytes. A packet whose declared size is above the limit is refused.
unfoldable pub encode_data : ℕ → ℕ → ℕ → ℕ → List ℕ → ℕ → Result (List ℕ)
encode_data transfer_id section_id block_id offset payload crc32 =
    if ltb payload_limit (length payload)
    then err payload_too_large
    else ok (
        written (
          write_common packet_data transfer_id (
            put_u32 section_id
            ∷ put_u32 block_id
            ∷ put_u64 offset
            ∷ put_u16 (length payload)
            ∷ put_u16 0
            ∷ put_u32 crc32
            ∷ payload
            ∷ [])))

data_body : Reader DataPacketView
data_body = do
  size ← remaining
  throw_unless (leb data_header_size size) invalid_size
  common ← read_common
  throw_unless (is_data common.type) unexpected_type
  section_id ← get_u32
  block_id ← get_u32
  offset ← get_u64
  payload_size ← get_u16
  _ ← get_u16
  crc32 ← get_u32
  left ← remaining
  throw_unless (leb payload_size payload_limit && payload_size == left) invalid_payload_size
  payload ← get_bytes payload_size
  return (record {
    common = common;
    section_id = section_id;
    block_id = block_id;
    offset = offset;
    payload_size = payload_size;
    crc32 = crc32;
    payload = payload;
  })

unfoldable pub decode_data : List ℕ → Result DataPacketView
unfolding data_body
decode_data bytes = decoded (data_body bytes)

unfoldable pub encode_end : ℕ → ℕ → ℕ → ℕ → List ℕ
encode_end transfer_id section_id round_id total_blocks = written (
    write_common end transfer_id
      (put_u32 section_id ∷ put_u32 round_id ∷ put_u32 total_blocks ∷ []))

end_body : Reader EndPacket
end_body = do
  size ← remaining
  throw_unless (size == end_packet_size) invalid_size
  common ← read_common
  throw_unless (is_end common.type) unexpected_type
  section_id ← get_u32
  round_id ← get_u32
  total_blocks ← get_u32
  return (record {
    common = common;
    section_id = section_id;
    round_id = round_id;
    total_blocks = total_blocks;
  })

unfoldable pub decode_end : List ℕ → Result EndPacket
unfolding end_body
decode_end bytes = decoded (end_body bytes)
