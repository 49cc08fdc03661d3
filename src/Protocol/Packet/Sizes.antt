-- ===== src/Protocol/Packet/Sizes.antt =====
-- The sizes in a decoded DATA packet.
use site_repair_cast.Common.{arith, ◌≤◌, length, ok, ◌≡◌, ℕ, List}
use site_repair_cast.Protocol.Bytes.Laws.{length-get_bytes}
use site_repair_cast.Protocol.Packet.{payload_limit, DataPacketView, decode_data}

pub payload_size-decode_data :
    (bytes : List ℕ) (p : DataPacketView)
    → decode_data bytes ≡ ok p
    → (p.payload_size ≡ length p.payload) × (p.payload_size ≤ payload_limit)
unfolding decode_data
payload_size-decode_data bytes p h = grind (arith, length-get_bytes)
