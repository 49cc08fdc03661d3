-- ===== src/Proxy/Repair/Round/Repaired.antt =====
-- `re_to_re` as a whole: its result for the receivers, and its plan.
use site_repair_cast.Common.{◌≤◌, ◌≢◌, ◌+◌, arith, length, ◌||◌, true, ◌<◌, ◌≡◌, Bool, ℕ, List}
use site_repair_cast.Protocol.Section.{u32}
use site_repair_cast.Proxy.Connection.{ReceiverConnection}
use site_repair_cast.Proxy.Repair.Blocks.{occurs}
use site_repair_cast.Proxy.Repair.Dispatch.{Repairs}
use site_repair_cast.Proxy.Repair.Dispatch.Handled.{tasked}
use site_repair_cast.Proxy.Repair.Plan.{Plan, empty_plan}
use site_repair_cast.Proxy.Repair.Plan.Sources.{
  served, empty_plan-IsFair, plan_blocks-IsFair, IsFair,
}
use site_repair_cast.Proxy.Repair.Round.{Outbox, repair_plan, has_block, RepairRound}
use site_repair_cast.Proxy.Repair.Round.Owners.{has_block-Owns, Owns}

-- The round sends the block to receiver `i`, or has a source that is asked to.
abbrev pub repaired : RepairRound → ℕ → ℕ → Bool
repaired round i b =
    occurs b round.multicast || occurs b (round.unicast i) || tasked round.tasks i b

planned-IsFair :
    (receivers : List ReceiverConnection) (transfer_id section_id round_id first_block : ℕ)
    (table : List (List ℕ))
    → IsFair
        (has_block receivers transfer_id section_id round_id)
        (length table)
        first_block
        (repair_plan receivers transfer_id section_id round_id first_block table)
unfolding repair_plan
planned-IsFair receivers transfer_id section_id round_id first_block table =
    plan_blocks-IsFair _ (length receivers) (length table) first_block empty_plan 0 table
      (omega arith) (empty_plan-IsFair _ (length table) first_block)

-- In the plan for any table a block that a source is to send to a target is a block of the table,
-- the source is not the target, is connected, has neither completed nor been isolated or abandoned,
-- and has reported for the round before that it has the section or, with a bit of its bitmap, that
-- it has the block. A source serves at most two targets.
pub repair_plan-IsFair :
    (receivers : List ReceiverConnection) (transfer_id section_id round_id first_block : ℕ)
    (table : List (List ℕ))
    → let plan = repair_plan receivers transfer_id section_id round_id first_block table in
      ((i t b : ℕ)
        → occurs b (plan.peer_plan i t) ≡ true
        → (i ≢ t)
          × (l : ℕ) × (l < length table)
          × (b ≡ u32 (first_block + l))
          × Owns receivers transfer_id section_id round_id i l)
      × ((i m : ℕ) → served (plan.peer_plan i) m ≤ 2)
repair_plan-IsFair receivers transfer_id section_id round_id first_block table =
    let fair = planned-IsFair receivers transfer_id section_id round_id first_block table in
    (
      (λ i t b planned.
          let (other, l, within, e, has) = fair.owned i t b planned in
          (other, l, within, e, has_block-Owns receivers transfer_id section_id round_id i l has)),
      (λ i m. omega (arith, fair.counted i m, fair.limited i)),
    )

abbrev sent_round : Outbox → Repairs → RepairRound
sent_round sent repairs = record {
  multicast = sent.multicast;
  tasks = repairs.tasks;
  unicast = sent.unicast;
  control_open = repairs.control_open;
}
