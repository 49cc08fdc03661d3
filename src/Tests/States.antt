-- ===== src/Tests/States.antt =====
-- A receiver of a file of three bytes, which is one block: a fresh one and a full one.
use site_repair_cast.Common.{
  zero, suc, false, replicate, get_or, refl, some, [], arith, true, ◌∷◌, ℕ, ◌%◌, List, ◌≡◌,
}
use site_repair_cast.FileIo.{Contents}
use site_repair_cast.Protocol.Packet.{meta, MetaPacket}
use site_repair_cast.Receiver.Datagram.Delivery.{IsSound}
use site_repair_cast.Receiver.Datagram.Validity.{IsValid, IsConsistent}
use site_repair_cast.Receiver.State.{DrainState, TransferState}

abbrev pub source : Contents
source i = i % 256

abbrev pub file_meta : MetaPacket
file_meta = record {
  common = record { type = meta; transfer_id = 7 };
  file_size = 3;
  block_size = 1200;
  total_blocks = 1;
  section_block_count = 64;
  file_name = 0x61 ∷ [];
  sha256 = replicate 32 0xab;
}

abbrev pub state_with : Contents → List ℕ → ℕ → TransferState
state_with output received received_count = record {
  meta = file_meta;
  output = output;
  received = received;
  received_count = received_count;
  duplicate_count = 0;
  rejected_count = 0;
  intentional_drop_count = 0;
  active_section_id = some 0;
  last_end_round = some 1;
  last_reported_round = some 1;
  awaiting_complete_ack = false;
  final_sha_failed = false;
  intentionally_dropped_blocks = [];
}

abbrev pub fresh : TransferState
fresh = state_with (λ i. 0) (0 ∷ []) 0

abbrev pub full : TransferState
full = state_with source (1 ∷ []) 1

abbrev pub waiting : DrainState
waiting = record {
  draining = true;
  draining_round = 2;
  hard_deadline = 1_000;
  drain_timer = some 900;
}

pub file_meta-IsConsistent : IsConsistent file_meta
file_meta-IsConsistent = record {
  blocks = refl;
  covered = omega arith;
  not_over = omega arith;
  file_fits = omega arith;
  count_fits = omega arith;
}

pub fresh-IsValid : IsValid fresh
fresh-IsValid = record {
  consistent = file_meta-IsConsistent;
  mapped = refl;
  flags = (omega arith, tt);
  counted = refl;
}

pub full-IsSound : IsSound source full
full-IsSound = (
  record {
    consistent = file_meta-IsConsistent;
    mapped = refl;
    flags = (omega arith, tt);
    counted = refl;
  },
  λ b i marked inside. refl,
)

pub fresh-IsSound : IsSound source fresh
fresh-IsSound = (fresh-IsValid, λ b i marked inside. absurd (marked (no_mark b)))
  where
    no_mark : (b : ℕ) → get_or fresh.received b 0 ≡ 0
    no_mark zero = refl
    no_mark (suc b) = refl
