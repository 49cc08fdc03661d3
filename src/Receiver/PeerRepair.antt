-- ===== src/Receiver/PeerRepair.antt =====
-- `execute_peer_repair_task` and `send_peer_udp_packet`.
pub mod Owned
use site_repair_cast.Checksum.{crc32}
use site_repair_cast.Common.{
  false, true, err, ok, ◌||◌, ◌==◌, [], read_failed, get_or, ◌++◌, ◌∷◌, not, ◌&&◌, ◌+◌,
  if◌then◌else◌, ltb, Bool, List, Result, ℕ,
}
use site_repair_cast.FileIo.{read_block}
use site_repair_cast.Protocol.Control.Backfill.{PeerRepairTaskMessage}
use site_repair_cast.Protocol.Packet.{encode_data}
use site_repair_cast.Protocol.Section.{section_block_count, section_id_for_block}
use site_repair_cast.Receiver.Machine.{
  modify, lift, return, Machine, Action, call_output, System, ◌>>=◌, ◌>>◌,
}
use site_repair_cast.Receiver.State.{TransferState}

unfoldable pub peer_packet : TransferState → PeerRepairTaskMessage → ℕ → Result (List ℕ)
peer_packet s task block_id =
    let block = read_block s.output s.meta.file_size block_id in
    encode_data task.transfer_id task.section_id block_id block.offset block.payload
      (crc32 block.payload)

-- A `sendto` that fails or is cut short loses the datagram and nothing else.
unfoldable pub send_peer_udp_packet : System → PeerRepairTaskMessage → List ℕ → Machine → Machine
send_peer_udp_packet sys task packet w =
    if sys.fails w.calls then record w { calls = w.calls + 1 } else record w {
      calls = w.calls + 1;
      peer_sent =
          w.peer_sent
          ++ (record { ipv4 = task.target_ipv4; port = task.target_port; packet = packet } ∷ []);
    }

-- The source has the block, and the block is in the section of the task.
unfoldable pub may_send : TransferState → PeerRepairTaskMessage → ℕ → Bool
may_send s task block_id =
    ltb block_id s.meta.total_blocks
    && not (get_or s.received block_id 0 == 0)
    && elim (section_id_for_block block_id s.meta.section_block_count) [
      | ok section_id ↦ section_id == task.section_id
      | err _ ↦ false
    ]

unfoldable pub send_peer_block :
    System → TransferState → PeerRepairTaskMessage → ℕ → Action (Unit {0})
unfolding may_send peer_packet send_peer_udp_packet call_output
send_peer_block sys s task block_id = if not (may_send s task block_id) then return tt else do
  call_output sys read_failed
  packet ← lift (peer_packet s task block_id)
  modify (send_peer_udp_packet sys task packet)

unfoldable pub send_peer_blocks :
    System → TransferState → PeerRepairTaskMessage → List ℕ → Action (Unit {0})
unfolding send_peer_block
send_peer_blocks sys s task [] = return tt
send_peer_blocks sys s task (block_id ∷ block_ids) = do
  send_peer_block sys s task block_id
  send_peer_blocks sys s task block_ids

unfoldable pub has_section : TransferState → ℕ → Bool
has_section s section_id =
    elim (section_block_count s.meta.total_blocks section_id s.meta.section_block_count) [
      | ok _ ↦ true
      | err _ ↦ false
    ]

unfoldable pub execute_peer_repair_task :
    System → TransferState → PeerRepairTaskMessage → Action (Unit {0})
unfolding has_section send_peer_blocks
execute_peer_repair_task sys s task =
    if not (task.transfer_id == s.meta.common.transfer_id)
      || s.awaiting_complete_ack
      || s.final_sha_failed
      || task.target_port == 0
      || not (has_section s task.section_id)
    then return tt
    else send_peer_blocks sys s task task.block_ids
