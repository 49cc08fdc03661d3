-- ===== src/Receiver/Drain.antt =====
-- `begin_drain_for_round` and the timer that it arms.
pub mod Rounds
use site_repair_cast.Common.{
  ℕ, ◌+◌, ◌-◌, ◌*◌, Bool, true, false, not, ◌&&◌, ◌||◌, Option, none, some, ltb, leb, ◌==◌,
  if◌then◌else◌, min, Result, ok, err,
}
use site_repair_cast.Protocol.Section.{section_block_count}
use site_repair_cast.Receiver.State.{TransferState, DrainState, reject}

-- `kDrainQuietPeriod` and `kDrainHardTimeout`.
abbrev pub quiet_period : ℕ
quiet_period = 200 * 1_000_000

abbrev pub hard_timeout : ℕ
hard_timeout = 1_000 * 1_000_000

-- `arm_timer_after` replaces a delay that is not positive by one nanosecond.
abbrev pub arm_timer_after : ℕ → ℕ → DrainState → DrainState
arm_timer_after now delay d = record d {
  drain_timer = some (now + (if delay == 0 then 1 else delay));
}

-- A deadline that has passed leaves no delay, where the source has a negative one.
unfoldable pub arm_drain_timer : ℕ → DrainState → DrainState
arm_drain_timer now d = arm_timer_after now (min quiet_period (d.hard_deadline - now)) d

-- `optional&&test(*optional)`.
abbrev pub holds : Option ℕ → (ℕ → Bool) → Bool
holds none test = false
holds (some v) test = test v

abbrev section_in_range : TransferState → ℕ → Bool
section_in_range s section_id =
    elim (section_block_count s.meta.total_blocks section_id s.meta.section_block_count) [
      | ok _ ↦ true
      | err _ ↦ false
    ]

-- The change to a new section. The fields of the transfer as the rest of the function sees them.
unfoldable pub enter_section : TransferState → ℕ → TransferState
enter_section s section_id =
    if holds s.active_section_id (λ active. section_id == active) then s else record s {
      active_section_id = some section_id;
      last_end_round = none;
      last_reported_round = none;
    }

start_round : ℕ → TransferState → DrainState → ℕ → TransferState × DrainState
unfolding arm_drain_timer
start_round now s d round_id =
    if holds s.last_reported_round (λ reported. leb round_id reported)
      || holds s.last_end_round (λ ended. ltb round_id ended)
      || (holds s.last_end_round (λ ended. round_id == ended) && d.draining)
    then (s, d)
    else (
      record s { last_end_round = some round_id },
      arm_drain_timer now (record d {
        draining = true;
        draining_round = round_id;
        hard_deadline = now + hard_timeout;
      }),
    )

unfoldable pub begin_drain_for_round :
    ℕ → TransferState → DrainState → ℕ → ℕ → ℕ → TransferState × DrainState
unfolding enter_section start_round
begin_drain_for_round now s d section_id round_id total_blocks =
    if s.awaiting_complete_ack
      || s.final_sha_failed
      || not (total_blocks == s.meta.total_blocks)
      || not (section_in_range s section_id)
    then (reject s, d)
    else if holds s.active_section_id (λ active. ltb section_id active)
    then (s, d)
    else start_round now (enter_section s section_id) d round_id
