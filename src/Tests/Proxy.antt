-- ===== src/Tests/Proxy.antt =====
-- A repair round for two receivers and a section of twenty blocks: the first lacks seventeen blocks,
-- the second has them all.
use site_repair_cast.Common.{
  send_failed, ◌≤◌, ◌==◌, ◌≢◌, ◌++◌, replicate, All, none, arith, some, err, length, [], false, ◌%◌,
  ◌<◌, ◌∷◌, map, refl, ◌+◌, get_or, true, ok, ◌≡◌, Result, List, ℕ,
}
use site_repair_cast.Protocol.Bitmap.{bitmap_test}
use site_repair_cast.Protocol.Bytes.{put_u64, put_u32, put_u16}
use site_repair_cast.Protocol.Control.Backfill.{encode_peer_repair_task}
use site_repair_cast.Protocol.Control.Receiver.{
  complete, idle, missing, SectionStatusMessage, SectionStatusCode,
}
use site_repair_cast.Protocol.Packet.{decode_data}
use site_repair_cast.Protocol.Section.{u32, section_block_count, section_first_block}
use site_repair_cast.Proxy.Connection.{ReceiverConnection}
use site_repair_cast.Proxy.Repair.Blocks.{occurs}
use site_repair_cast.Proxy.Repair.Dispatch.{
  send_task, send_chunks, dispatch_pair, dispatch_targets, dispatch_sources,
}
use site_repair_cast.Proxy.Repair.Missing.{
  add_report, missing_report, source_has_block, aggregate_missing_blocks,
}
use site_repair_cast.Proxy.Repair.Missing.Table.{Covers, aggregate_missing_blocks_lem, misses}
use site_repair_cast.Proxy.Repair.Plan.{
  find_from, plan_target, plan_targets, plan_block, plan_blocks,
}
use site_repair_cast.Proxy.Repair.Plan.Sources.{served}
use site_repair_cast.Proxy.Repair.Round.{
  send_fallback, send_block, send_blocks, receiver_at, repair_plan, repair_packet, has_block,
  RepairRound, re_to_re,
}
use site_repair_cast.Proxy.Repair.Round.Owners.{Owns}
use site_repair_cast.Proxy.Repair.Round.Packets.{repair_packet-Carries, repair_view}
use site_repair_cast.Proxy.Repair.Round.Repaired.{repair_plan-IsFair}
use site_repair_cast.Receiver.Datagram.Integrity.{Carries}

abbrev report : SectionStatusCode → ℕ → List ℕ → SectionStatusMessage
report status missing_count missing_bitmap = record {
  transfer_id = 7;
  section_id = 0;
  round_id = 1;
  status = status;
  missing_count = missing_count;
  missing_bitmap = missing_bitmap;
}

abbrev receiver_with : ℕ → SectionStatusMessage → ReceiverConnection
receiver_with port m = record {
  control_open = true;
  udp_destination = record { ipv4 = 0x0a00_0001; port = port };
  peer_destination = record { ipv4 = 0x0a00_0001; port = port + 1 };
  meta_ready = true;
  status_received = true;
  complete_received = false;
  completed = false;
  ready_for_next_transfer = false;
  isolated = false;
  abandoned = false;
  recovery_state = idle;
  recovery_transfer_id = 0;
  backfill_blocks = [];
  status = some m;
  active_meta = none;
}

abbrev receivers : List ReceiverConnection
receivers =
    receiver_with 9000 (report missing 17 (0xff ∷ 0xff ∷ 0x01 ∷ []))
    ∷ receiver_with 9010 (report complete 0 [])
    ∷ []

-- The second receiver is asked for all seventeen blocks in one task.
abbrev task_sizes : Result RepairRound → List ℕ
task_sizes (ok round) = map (λ sent. length sent.task.block_ids) round.tasks
task_sizes (err e) = []

one_task : task_sizes (re_to_re (λ task_id. true) (λ k. false) receivers 7 20 0 2 64) ≡ (17 ∷ [])
unfolding re_to_re send_blocks send_block send_fallback repair_plan aggregate_missing_blocks
    plan_blocks plan_block plan_targets plan_target has_block receiver_at source_has_block
    missing_report add_report dispatch_sources dispatch_targets dispatch_pair send_chunks send_task
    section_first_block section_block_count encode_peer_repair_task put_u16 put_u32 put_u64
    find_from bitmap_test
one_task = refl

-- The second datagram of the round, a unicast, fails after its read.
send_error : re_to_re (λ task_id. false) (λ k. k == 3) receivers 7 20 0 2 64 ≡ err send_failed
unfolding re_to_re send_blocks send_block send_fallback repair_plan aggregate_missing_blocks
    plan_blocks plan_block plan_targets plan_target has_block receiver_at source_has_block
    missing_report add_report dispatch_sources dispatch_targets dispatch_pair send_chunks send_task
    section_first_block section_block_count encode_peer_repair_task put_u16 put_u32 put_u64
    find_from bitmap_test
send_error = refl

receivers-Covers : All (Covers 20) receivers
receivers-Covers = ((λ _ _ _ _. omega arith), ((λ e _ _ _. absurd cc), tt))

abbrev table : List (List ℕ)
table = replicate 17 (0 ∷ []) ++ replicate 3 []

repair_plan-IsFair_example :
    let plan = repair_plan receivers 7 0 2 0 table in
    ((i t b : ℕ)
      → occurs b (plan.peer_plan i t) ≡ true
      → (i ≢ t) × (l : ℕ) × (l < 20) × (b ≡ u32 (0 + l)) × Owns receivers 7 0 2 i l)
    × ((i m : ℕ) → served (plan.peer_plan i) m ≤ 2)
repair_plan-IsFair_example = repair_plan-IsFair receivers 7 0 2 0 table

aggregate_missing_blocks_lem_example :
    (rows : List (List ℕ)) × (aggregate_missing_blocks receivers 20 ≡ ok rows)
    × ((i j : ℕ) → j < 20 → occurs i (get_or rows j []) ≡ misses receivers i j)
aggregate_missing_blocks_lem_example = aggregate_missing_blocks_lem receivers 20 receivers-Covers

repair_packet-Carries_example :
    (frame : List ℕ) × (repair_packet (λ i. i % 256) 3 7 0 0 ≡ ok frame)
    × (decode_data frame ≡ ok (repair_view (λ i. i % 256) 3 7 0 0))
    × Carries (λ i. i % 256) frame
repair_packet-Carries_example =
    repair_packet-Carries (λ i. i % 256) 3 7 0 0 (omega arith) (omega arith) (omega arith)
