-- ===== src/Proxy/Repair/Round/Packets.antt =====
-- The DATA packets of `re_to_re`.
use site_repair_cast.Checksum.{crc32}
use site_repair_cast.Checksum.Bounds.{crc32-bound}
use site_repair_cast.Common.{err, ◌>>=◌, refl, ◌*◌, ok, ◌≡◌, arith, ◌^◌, length, List, ◌<◌, ℕ}
use site_repair_cast.FileIo.{block_bytes, read_block, Contents}
use site_repair_cast.FileIo.Laws.{length-slice}
use site_repair_cast.Protocol.Packet.{payload_limit, decode_data, packet_data, DataPacketView}
use site_repair_cast.Protocol.Packet.RoundTrip.{decode_data-encode_data, encode_view, DataFits}
use site_repair_cast.Proxy.Repair.Round.{repair_packet}
use site_repair_cast.Receiver.Datagram.Delivery.{block_packet-Carries}
use site_repair_cast.Receiver.Datagram.Integrity.{Carries}

-- What a receiver reads in the packet of a block.
abbrev pub repair_view : Contents → ℕ → ℕ → ℕ → ℕ → DataPacketView
repair_view file file_size transfer_id section_id block_id =
    let block = read_block file file_size block_id in
    record {
      common = record { type = packet_data; transfer_id = transfer_id };
      section_id = section_id;
      block_id = block_id;
      offset = block.offset;
      payload_size = length block.payload;
      crc32 = crc32 block.payload;
      payload = block.payload;
    }

pub read_block-DataFits :
    (file : Contents) (file_size transfer_id section_id block_id : ℕ)
    → transfer_id < 2 ^ 64
    → section_id < 2 ^ 32
    → block_id < 2 ^ 32
    → DataFits (repair_view file file_size transfer_id section_id block_id)
unfolding read_block
read_block-DataFits file file_size transfer_id section_id block_id t s b = (
  refl,
  t,
  s,
  b,
  omega (arith, b),
  refl,
  omega (arith, length-slice file (block_id * payload_limit) (block_bytes file_size block_id)),
  crc32-bound _,
)

encode_view-ok : (p : DataPacketView) → DataFits p → (frame : List ℕ) × (encode_view p ≡ ok frame)
encode_view-ok p fits =
    elim (encode_view p) as (λ r. (r >>= decode_data) ≡ ok p → (frame : List ℕ) × (r ≡ ok frame)) [
      | ok frame ↦ λ h. (frame, refl)
      | err e ↦ λ h. absurd cc
    ]
      (decode_data-encode_data p fits)

-- For ids within their C++ types, the packet of a block is encoded without an error, a receiver
-- decodes it to the packet that was meant, its CRC included, and it carries the bytes of the file
-- at its offset.
pub repair_packet-Carries :
    (file : Contents) (file_size transfer_id section_id block_id : ℕ)
    → transfer_id < 2 ^ 64
    → section_id < 2 ^ 32
    → block_id < 2 ^ 32
    → (frame : List ℕ) × (repair_packet file file_size transfer_id section_id block_id ≡ ok frame)
      × (decode_data frame ≡ ok (repair_view file file_size transfer_id section_id block_id))
      × Carries file frame
unfolding repair_packet
repair_packet-Carries file file_size transfer_id section_id block_id t s b =
    let p = repair_view file file_size transfer_id section_id block_id in
    let fits = read_block-DataFits file file_size transfer_id section_id block_id t s b in
    let (frame, e) = encode_view-ok p fits in
    (
      frame,
      e,
      (rw e at (decode_data-encode_data p fits)),
      block_packet-Carries file p frame file_size fits e refl refl,
    )
