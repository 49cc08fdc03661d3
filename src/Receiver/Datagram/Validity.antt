-- ===== src/Receiver/Datagram/Validity.antt =====
-- The reception map, its count and the file sizes over `process_udp_ready`.
use site_repair_cast.Common.{
  none, some, Option, ℕ, zero, suc, ◌+◌, ◌*◌, ◌<◌, ◌≤◌, ◌≡◌, ◌^◌, List, [], ◌∷◌, All, length,
  get_or, set, length-set, arith,
}
use site_repair_cast.Protocol.Packet.{CommonHeader, DataPacketView, payload_limit, MetaPacket}
use site_repair_cast.Receiver.Datagram.{process_datagram, process_packet, accepts, process_data}
use site_repair_cast.Receiver.Drain.{begin_drain_for_round}
use site_repair_cast.Receiver.State.{TransferState, DrainState}

abbrev pub sum : List ℕ → ℕ
sum [] = 0
sum (r ∷ rs) = r + sum rs

-- What `initialize_transfer` has checked of the metadata.
pub record IsConsistent (m : MetaPacket) : Type 0 where
  pub blocks : m.block_size ≡ payload_limit
  pub covered : m.file_size ≤ m.total_blocks * payload_limit
  pub not_over : m.total_blocks * payload_limit < m.file_size + payload_limit
  pub file_fits : m.file_size < 2 ^ 63
  pub count_fits : m.total_blocks < 2 ^ 32

pub record IsValid (s : TransferState) : Type 0 where
  pub consistent : IsConsistent s.meta
  pub mapped : length s.received ≡ s.meta.total_blocks
  pub flags : All (λ r. r ≤ 1) s.received
  pub counted : s.received_count ≡ sum s.received

pub sum-le-length : (rs : List ℕ) → All (λ r. r ≤ 1) rs → sum rs ≤ length rs
sum-le-length [] h = omega arith
sum-le-length (r ∷ rs) h = omega (arith, sum-le-length rs h.1)

pub set-flags : (rs : List ℕ) (i : ℕ) → All (λ r. r ≤ 1) rs → All (λ r. r ≤ 1) (set rs i 1)
set-flags [] i h = tt
set-flags (r ∷ rs) zero h = (omega arith, h.1)
set-flags (r ∷ rs) (suc i) h = (h.0, set-flags rs i h.1)

pub sum-set :
    (rs : List ℕ) (i : ℕ) → i < length rs → get_or rs i 0 ≡ 0 → sum (set rs i 1) ≡ sum rs + 1
sum-set [] i h e = absurd (omega arith)
sum-set (r ∷ rs) zero h e = omega arith
sum-set (r ∷ rs) (suc i) h e = omega (arith, sum-set rs i (omega arith) e)

-- A count below the number of blocks: there is a block left to count.
pub sum-lt :
    (rs : List ℕ) (i : ℕ)
    → All (λ r. r ≤ 1) rs
    → i < length rs
    → get_or rs i 0 ≡ 0
    → sum rs < length rs
sum-lt [] i f h e = absurd (omega arith)
sum-lt (r ∷ rs) zero f h e = omega (arith, sum-le-length rs f.1)
sum-lt (r ∷ rs) (suc i) f h e = omega (arith, sum-lt rs i f.1 (omega arith) e)

pub process_data-IsValid :
    (drops : List ℕ) (now : ℕ) (s : TransferState) (d : DrainState) (p : DataPacketView)
    → IsValid s
    → IsValid (process_data drops now s d p).0
unfolding process_data accepts
process_data-IsValid drops now s d p v = ground (
  arith,
  length-set s.received p.block_id 1,
  set-flags s.received p.block_id,
  sum-set s.received p.block_id,
  sum-lt s.received p.block_id,
)

pub begin_drain_for_round-IsValid :
    (now : ℕ) (s : TransferState) (d : DrainState) (section_id round_id total_blocks : ℕ)
    → IsValid s
    → IsValid (begin_drain_for_round now s d section_id round_id total_blocks).0
unfolding begin_drain_for_round
begin_drain_for_round-IsValid now s d section_id round_id total_blocks v = ground arith

pub process_packet-IsValid :
    (drops : List ℕ) (now : ℕ) (s : TransferState) (d : DrainState) (c : CommonHeader)
    (bytes : List ℕ)
    → IsValid s
    → IsValid (process_packet drops now s d c bytes).0
unfolding process_packet
process_packet-IsValid drops now s d c bytes v =
    grind (arith, process_data-IsValid, begin_drain_for_round-IsValid)

-- What holds of the transfer, if one is open.
abbrev pub Open : (TransferState → Type 0) → Option TransferState → Type 0
Open P none = Unit {0}
Open P (some s) = P s

-- Every datagram leaves a valid state of the receiver valid: one mark for each block of the file,
-- each 0 or 1, and the count of received blocks is the number of marks.
pub process_datagram-IsValid :
    (drops : List ℕ) (now : ℕ) (t : Option TransferState) (d : DrainState) (datagram : List ℕ)
    → Open IsValid t
    → Open IsValid (process_datagram drops now t d datagram).0
unfolding process_datagram
process_datagram-IsValid drops now none d datagram v = tt
process_datagram-IsValid drops now (some s) d datagram v = grind (arith, process_packet-IsValid)
