-- ===== src/Receiver/Datagram.antt =====
-- The UDP side of the event loop: `process_udp_ready` for one datagram. A failing `pwrite` is not
-- modelled.
pub mod Validity
pub mod Integrity
pub mod Delivery
pub mod Deadline
use site_repair_cast.Checksum.{crc32}
use site_repair_cast.Common.{
  ℕ, ◌+◌, ◌-◌, ◌*◌, ◌%◌, ◌^◌, Bool, true, false, not, ◌&&◌, ◌||◌, Option, none, some, List, [], ◌∷◌,
  length, take, get_or, set, ltb, leb, ◌==◌, if◌then◌else◌, min, ok, err,
}
use site_repair_cast.FileIo.{write_all_at}
use site_repair_cast.Protocol.Bytes.{decoded}
use site_repair_cast.Protocol.Packet.{
  CommonHeader, MetaPacket, DataPacketView, meta, packet_data, end, payload_limit, data_header_size,
  read_common, decode_data, decode_end,
}
use site_repair_cast.Protocol.Section.{u32, section_id_for_block}
use site_repair_cast.Receiver.Drain.{arm_drain_timer, begin_drain_for_round}
use site_repair_cast.Receiver.State.{u64, TransferState, DrainState, reject}

abbrev pub member : ℕ → List ℕ → Bool
member v [] = false
member v (x ∷ xs) = x == v || member v xs

-- The checks on offset, size and CRC. The subtraction is in 64 bits, the cast cuts to 16.
unfoldable pub payload_matches : MetaPacket → ℕ → ℕ → ℕ → ℕ → List ℕ → Bool
payload_matches m block_id offset payload_size crc payload =
    let expected_offset = block_id * m.block_size in
    let expected_size =
      min m.block_size ((m.file_size + 2 ^ 64 - expected_offset) % 2 ^ 64) % 2 ^ 16 in
    offset == expected_offset
    && payload_size == expected_size
    && leb (u64 (offset + payload_size)) m.file_size
    && crc32 payload == crc

-- `should_drop_initial_block_for_test`, and its effect when it answers true.
abbrev should_drop : TransferState → List ℕ → ℕ → Bool
should_drop s configured block_id =
    member block_id configured && not (member block_id s.intentionally_dropped_blocks)

abbrev drop_block : TransferState → ℕ → TransferState
drop_block s block_id = record s {
  intentional_drop_count = u64 (s.intentional_drop_count + 1);
  intentionally_dropped_blocks = block_id ∷ s.intentionally_dropped_blocks;
}

abbrev pub store_block : TransferState → ℕ → List ℕ → ℕ → TransferState
store_block s block_id payload offset = record s {
  output = write_all_at s.output payload offset;
  received = set s.received block_id 1;
  received_count = u32 (s.received_count + 1);
}

abbrev in_section : TransferState → DataPacketView → Bool
in_section s p = elim (section_id_for_block p.block_id s.meta.section_block_count) [
  | ok section_id ↦ p.section_id == section_id
  | err _ ↦ false
]

unfoldable pub accepts : TransferState → DataPacketView → Bool
accepts s p =
    ltb p.block_id s.meta.total_blocks
    && in_section s p
    && payload_matches s.meta p.block_id p.offset p.payload_size p.crc32 p.payload

unfoldable pub process_data :
    List ℕ → ℕ → TransferState → DrainState → DataPacketView → TransferState × DrainState
process_data drops now s d p =
    if not (accepts s p)
    then (reject s, d)
    else if should_drop s drops p.block_id
    then (drop_block s p.block_id, d)
    else if not (get_or s.received p.block_id 0 == 0)
    then (record s { duplicate_count = u64 (s.duplicate_count + 1) }, d)
    else (
      store_block s p.block_id p.payload p.offset,
      if d.draining then arm_drain_timer now d else d,
    )

process_end : ℕ → TransferState → DrainState → List ℕ → TransferState × DrainState
process_end now s d bytes = elim (decode_end bytes) [
  | ok p ↦ begin_drain_for_round now s d p.section_id p.round_id p.total_blocks
  | err _ ↦ (reject s, d)
]

-- A datagram whose header could be read, on a transfer that is open.
unfoldable pub process_packet :
    List ℕ → ℕ → TransferState → DrainState → CommonHeader → List ℕ → TransferState × DrainState
unfolding process_end
process_packet drops now s d common bytes =
    if not (common.transfer_id == s.meta.common.transfer_id)
      || s.awaiting_complete_ack
      || s.final_sha_failed
    then (s, d)
    else elim common.type [
      | meta ↦ (s, d)
      | packet_data ↦ elim (decode_data bytes) [
        | ok p ↦ process_data drops now s d p
        | err _ ↦ (reject s, d)
      ]
      | end ↦ process_end now s d bytes
    ]

-- `kMaxPacketSize`, the size of the buffer: the rest of a longer datagram is lost.
abbrev pub packet_limit : ℕ
packet_limit = data_header_size + payload_limit

on_open_transfer : List ℕ → ℕ → TransferState → DrainState → List ℕ → TransferState × DrainState
unfolding process_packet
on_open_transfer drops now s d bytes = elim (decoded (read_common bytes)) [
  | ok common ↦ process_packet drops now s d common bytes
  | err _ ↦ (reject s, d)
]

-- With no transfer open a datagram changes nothing, and an empty one never does.
unfoldable pub process_datagram :
    List ℕ → ℕ → Option TransferState → DrainState → List ℕ → Option TransferState × DrainState
unfolding on_open_transfer
process_datagram drops now none d datagram = (none, d)
process_datagram drops now (some s) d datagram =
    if length datagram == 0
    then (some s, d)
    else let (s', d') = on_open_transfer drops now s d (take packet_limit datagram) in (some s', d')
