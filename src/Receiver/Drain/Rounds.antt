-- ===== src/Receiver/Drain/Rounds.antt =====
-- Late and repeated round ends.
use site_repair_cast.Common.{true, ℕ, ◌≤◌, ◌≡◌, Option, none, some, arith}
use site_repair_cast.Receiver.Drain.{begin_drain_for_round}
use site_repair_cast.Receiver.State.{TransferState, DrainState}

-- `b` is not behind `a`.
abbrev pub NotBehind : Option ℕ → Option ℕ → Type 0
NotBehind none b = Unit {0}
NotBehind (some x) none = ⊥
NotBehind (some x) (some y) = x ≤ y

-- While packets are collected, the round that the timer will report is the one that ended last.
abbrev pub Collects : TransferState → DrainState → Type 0
Collects s d = d.draining ≡ true → s.last_end_round ≡ some d.draining_round

-- Let the round that is collected, if one is, be the one that ended last. A round end keeps that so
-- and never moves a receiver back: the active section does not fall, and as long as the section
-- stays the same, neither does the round that ended last, the round that was reported last is kept,
-- and a collection goes on, with no earlier round.
pub begin_drain_for_round_forward :
    (now : ℕ) (s : TransferState) (d : DrainState) (section_id round_id total_blocks : ℕ)
    → Collects s d
    → let (s', d') = begin_drain_for_round now s d section_id round_id total_blocks in
      NotBehind s.active_section_id s'.active_section_id
      × Collects s' d'
      × (s'.active_section_id ≡ s.active_section_id
          → NotBehind s.last_end_round s'.last_end_round
            × (s'.last_reported_round ≡ s.last_reported_round)
            × (d.draining ≡ true → (d'.draining ≡ true) × (d.draining_round ≤ d'.draining_round)))
unfolding begin_drain_for_round
begin_drain_for_round_forward now s d section_id round_id total_blocks c = ground arith

-- The end of a round that was already reported in the active section, or of an earlier one, neither
-- starts a collection nor touches the timer.
pub begin_drain_for_round_reported :
    (now : ℕ) (s : TransferState) (d : DrainState) (section_id round_id total_blocks reported : ℕ)
    → s.active_section_id ≡ some section_id
    → s.last_reported_round ≡ some reported
    → round_id ≤ reported
    → (begin_drain_for_round now s d section_id round_id total_blocks).1 ≡ d
unfolding begin_drain_for_round
begin_drain_for_round_reported now s d section_id round_id total_blocks reported e₁ e₂ h =
    ground arith
