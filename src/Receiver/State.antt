-- ===== src/Receiver/State.antt =====
-- `TransferState`, and the variables of the event loop around it. The paths follow from the file
-- name and the transfer; `output` is the temporary file behind the descriptor. Times count
-- nanoseconds.
use site_repair_cast.Common.{ℕ, ◌+◌, ◌%◌, ◌^◌, Bool, List, Option}
use site_repair_cast.FileIo.{Contents}
use site_repair_cast.Protocol.Packet.{MetaPacket}

abbrev pub u64 : ℕ → ℕ
u64 v = v % 2 ^ 64

pub record TransferState : Type 0 where
  pub meta : MetaPacket
  pub output : Contents
  pub received : List ℕ
  pub received_count : ℕ
  pub duplicate_count : ℕ
  pub rejected_count : ℕ
  pub intentional_drop_count : ℕ
  pub active_section_id : Option ℕ
  pub last_end_round : Option ℕ
  pub last_reported_round : Option ℕ
  pub awaiting_complete_ack : Bool
  pub final_sha_failed : Bool
  pub intentionally_dropped_blocks : List ℕ

-- `drain_timer` is the time at which the timerfd expires, if it is armed.
pub record DrainState : Type 0 where
  pub draining : Bool
  pub draining_round : ℕ
  pub hard_deadline : ℕ
  pub drain_timer : Option ℕ

abbrev pub reject : TransferState → TransferState
reject s = record s { rejected_count = u64 (s.rejected_count + 1) }
