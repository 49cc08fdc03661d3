-- ===== src/Proxy/Repair/Round.antt =====
-- `re_to_re` from its parts. `receivers` are as the REPAIR_BEGIN frames leave them; the pacing, the
-- counters of REPAIR_METRIC and the SECTION_END frames at the end are left out. The multicasts of
-- the planning loop come before the first task, and the planning does not look at them, so that they
-- are one loop here.
pub mod Sends
pub mod Owners
pub mod Repaired
pub mod Packets
use site_repair_cast.Checksum.{crc32}
use site_repair_cast.Common.{
  send_failed, read_failed, err, ◌+◌, if◌then◌else◌, ◌++◌, ok, ◌>>=◌, zero, [], suc, length, some,
  false, ◌∷◌, none, Result, Option, Bool, ℕ, List,
}
use site_repair_cast.FileIo.{read_block, Contents}
use site_repair_cast.Protocol.Packet.{encode_data}
use site_repair_cast.Protocol.Section.{section_block_count, section_first_block}
use site_repair_cast.Proxy.Connection.{Address, ReceiverConnection}
use site_repair_cast.Proxy.Repair.Dispatch.{dispatch_sources, SentTask}
use site_repair_cast.Proxy.Repair.Missing.{aggregate_missing_blocks, source_has_block}
use site_repair_cast.Proxy.Repair.Plan.{update, empty_plan, plan_blocks, Plan}

-- What the proxy has sent: the blocks to all receivers, and the blocks to each receiver. `calls`
-- numbers the reads of the file and the datagrams.
pub record Outbox : Type 0 where
  pub calls : ℕ
  pub multicast : List ℕ
  pub unicast : ℕ → List ℕ

abbrev pub empty_outbox : Outbox
empty_outbox = record { calls = 0; multicast = []; unicast = λ target. [] }

-- A datagram to all receivers, or to one.
abbrev pub add_datagram : Option ℕ → ℕ → Outbox → Outbox
add_datagram none block_id out = record out { multicast = out.multicast ++ (block_id ∷ []) }
add_datagram (some target) block_id out = record out {
  unicast = update out.unicast target (out.unicast target ++ (block_id ∷ []));
}

-- `read_block` and `send_udp_packet`, where `fails` says which of these calls throw. The packet is
-- `repair_packet`.
unfoldable pub send_block : (ℕ → Bool) → Option ℕ → ℕ → Outbox → Result Outbox
send_block fails destination block_id out =
    if fails out.calls
    then err read_failed
    else if fails (out.calls + 1)
    then err send_failed
    else ok (record (add_datagram destination block_id out) { calls = out.calls + 2 })

unfoldable pub send_blocks : (ℕ → Bool) → Option ℕ → List ℕ → Outbox → Result Outbox
unfolding send_block
send_blocks fails destination [] out = ok out
send_blocks fails destination (block_id ∷ block_ids) out =
    send_block fails destination block_id out >>= send_blocks fails destination block_ids

-- The blocks that no peer sends, to the receivers from `target` on, with `left` to go.
unfoldable pub send_fallback : (ℕ → Bool) → ℕ → ℕ → (ℕ → List ℕ) → Outbox → Result Outbox
unfolding send_blocks
send_fallback fails zero target fallback out = ok out
send_fallback fails (suc left) target fallback out =
    send_blocks fails (some target) (fallback target) out
    >>= send_fallback fails left (target + 1) fallback

-- What the round sends: the blocks to all receivers, the tasks that sources have got, and for each
-- receiver the blocks that the proxy sends to it.
pub record RepairRound : Type 0 where
  pub multicast : List ℕ
  pub tasks : List SentTask
  pub unicast : ℕ → List ℕ
  pub control_open : ℕ → Bool

unfoldable pub receiver_at : List ReceiverConnection → ℕ → Option ReceiverConnection
receiver_at [] i = none
receiver_at (r ∷ rs) zero = some r
receiver_at (r ∷ rs) (suc i) = receiver_at rs i

unfoldable pub has_block : List ReceiverConnection → ℕ → ℕ → ℕ → ℕ → ℕ → Bool
has_block receivers transfer_id section_id round_id i local_block = elim (receiver_at receivers i) [
  | none ↦ false
  | some r ↦ source_has_block transfer_id section_id round_id r local_block
]

abbrev pub peer_address : List ReceiverConnection → ℕ → Address
peer_address receivers i = elim (receiver_at receivers i) [
  | none ↦ record { ipv4 = 0; port = 0 }
  | some r ↦ r.peer_destination
]

abbrev pub control_open_at : List ReceiverConnection → ℕ → Bool
control_open_at receivers i = elim (receiver_at receivers i) [
  | none ↦ false
  | some r ↦ r.control_open
]

-- The plan for the blocks of a section from `first_block` on, whose rows the table has.
unfoldable pub repair_plan : List ReceiverConnection → ℕ → ℕ → ℕ → ℕ → List (List ℕ) → Plan
repair_plan receivers transfer_id section_id round_id first_block missing_by_block =
    plan_blocks (has_block receivers transfer_id section_id round_id) (length receivers) first_block
      empty_plan 0 missing_by_block

unfoldable pub re_to_re :
    (ℕ → Bool) → (ℕ → Bool) → List ReceiverConnection → ℕ → ℕ → ℕ → ℕ → ℕ → Result RepairRound
re_to_re delivers fails receivers transfer_id total_blocks section_id round_id section_block_limit =
    do
      section_blocks ← section_block_count total_blocks section_id section_block_limit
      missing_by_block ← aggregate_missing_blocks receivers section_blocks
      first_block ← section_first_block section_id section_block_limit
      let plan = repair_plan receivers transfer_id section_id round_id first_block missing_by_block
      multicast ← send_blocks fails none plan.multicast empty_outbox
      repairs ←
          dispatch_sources delivers (peer_address receivers) transfer_id section_id round_id
            (length receivers) (length receivers) plan.peer_plan 0
            (record {
              fallback = plan.fallback;
              control_open = control_open_at receivers;
              task_sequence = 0;
              tasks = [];
            })
      sent ← send_fallback fails (length receivers) 0 repairs.fallback multicast
      ok (record {
        multicast = sent.multicast;
        tasks = repairs.tasks;
        unicast = sent.unicast;
        control_open = repairs.control_open;
      })

-- The packet of a block, for the multicast and for the unicast.
unfoldable pub repair_packet : Contents → ℕ → ℕ → ℕ → ℕ → Result (List ℕ)
repair_packet file file_size transfer_id section_id block_id =
    let block = read_block file file_size block_id in
    encode_data transfer_id section_id block_id block.offset block.payload (crc32 block.payload)
