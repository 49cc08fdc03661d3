-- ===== src/Receiver/Datagram/Deadline.antt =====
-- The drain timer over `process_udp_ready`.
use site_repair_cast.Common.{none, Option, leb, ◌+◌, arith, some, ◌<◌, true, List, ℕ, ◌≡◌}
use site_repair_cast.Protocol.Packet.{CommonHeader, DataPacketView}
use site_repair_cast.Receiver.Datagram.{process_datagram, process_packet, process_data}
use site_repair_cast.Receiver.Drain.{hard_timeout, holds, begin_drain_for_round, arm_drain_timer}
use site_repair_cast.Receiver.State.{TransferState, DrainState}

-- While a round is collected its timer is armed, and expires at the deadline at the latest.
abbrev pub IsTimed : DrainState → Type 0
IsTimed d = d.draining ≡ true → holds d.drain_timer (λ t. leb t d.hard_deadline) ≡ true

arm_drain_timer-IsTimed :
    (now : ℕ) (d : DrainState) → now < d.hard_deadline → IsTimed (arm_drain_timer now d)
unfolding arm_drain_timer
arm_drain_timer-IsTimed now d h draining = ground arith

started :
    (now : ℕ) (d : DrainState) (round_id : ℕ)
    → IsTimed (
        arm_drain_timer now (record d {
          draining = true;
          draining_round = round_id;
          hard_deadline = now + hard_timeout;
        }))
started now d round_id =
    arm_drain_timer-IsTimed now
      (record d { draining = true; draining_round = round_id; hard_deadline = now + hard_timeout })
      (omega arith)

begin_drain_for_round-IsTimed :
    (now : ℕ) (s : TransferState) (d : DrainState) (section_id round_id total_blocks : ℕ)
    → IsTimed d
    → IsTimed (begin_drain_for_round now s d section_id round_id total_blocks).1
unfolding begin_drain_for_round
begin_drain_for_round-IsTimed now s d section_id round_id total_blocks h =
    grind (arith, started now d round_id)

process_data-IsTimed :
    (drops : List ℕ) (now : ℕ) (s : TransferState) (d : DrainState) (p : DataPacketView)
    → (d.draining ≡ true → now < d.hard_deadline)
    → IsTimed d
    → IsTimed (process_data drops now s d p).1
unfolding process_data
process_data-IsTimed drops now s d p early h = ground (arith, arm_drain_timer-IsTimed now d)

process_packet_cases :
    (P : TransferState × DrainState → Type 0) (drops : List ℕ) (now : ℕ) (s : TransferState)
    (d : DrainState) (c : CommonHeader) (bytes : List ℕ)
    → ((s' : TransferState) → P (s', d))
    → ((p : DataPacketView) → P (process_data drops now s d p))
    → ((section_id round_id total_blocks : ℕ)
        → P (begin_drain_for_round now s d section_id round_id total_blocks))
    → P (process_packet drops now s d c bytes)
unfolding process_packet
process_packet_cases P drops now s d c bytes same stored drained = grind arith

process_packet-IsTimed :
    (drops : List ℕ) (now : ℕ) (s : TransferState) (d : DrainState) (c : CommonHeader)
    (bytes : List ℕ)
    → (d.draining ≡ true → now < d.hard_deadline)
    → IsTimed d
    → IsTimed (process_packet drops now s d c bytes).1
process_packet-IsTimed drops now s d c bytes early h =
    process_packet_cases (λ r. IsTimed r.1) drops now s d c bytes (λ s'. h)
      (λ p. process_data-IsTimed drops now s d p early h)
      (λ section_id round_id total_blocks.
        begin_drain_for_round-IsTimed now s d section_id round_id total_blocks h)

process_datagram_cases :
    (P : DrainState → Type 0) (drops : List ℕ) (now : ℕ) (t : Option TransferState) (d : DrainState)
    (datagram : List ℕ)
    → P d
    → ((s : TransferState) (c : CommonHeader) (bytes : List ℕ)
        → P (process_packet drops now s d c bytes).1)
    → P (process_datagram drops now t d datagram).1
unfolding process_datagram
process_datagram_cases P drops now none d datagram same packet = same
process_datagram_cases P drops now (some s) d datagram same packet = grind arith

-- If the timer of a round that is collected expires at the deadline or before, then after a
-- datagram that comes before that deadline the timer of the round that is collected again expires
-- at its deadline or before.
pub process_datagram-IsTimed :
    (drops : List ℕ) (now : ℕ) (t : Option TransferState) (d : DrainState) (datagram : List ℕ)
    → (d.draining ≡ true → now < d.hard_deadline)
    → IsTimed d
    → IsTimed (process_datagram drops now t d datagram).1
process_datagram-IsTimed drops now t d datagram early h =
    process_datagram_cases IsTimed drops now t d datagram h
      (λ s c bytes. process_packet-IsTimed drops now s d c bytes early h)
