-- ===== src/Tests/Receiver.antt =====
-- The theorems on the receiver, at a file of one block.
use mathlib.Core.Path.{subst}
use site_repair_cast.Checksum.{crc32}
use site_repair_cast.Common.{
  ◌≤◌, ◌==◌, ◌+◌, ◌<◌, length, invalid_size, sym, err, Error, ok, take, get_or, refl, some, [],
  arith, true, ◌∷◌, ℕ, List, ◌≡◌,
}
use site_repair_cast.FileIo.{write_all_at, read_block}
use site_repair_cast.Protocol.Bitmap.{bitmap_test, bitmap_size_for_blocks}
use site_repair_cast.Protocol.Bytes.{get_u64, get_u32, put_u64, get_u16, put_u32, put_u16}
use site_repair_cast.Protocol.Control.Receiver.{missing}
use site_repair_cast.Protocol.Packet.{read_common, decode_data, encode_data, DataPacketView}
use site_repair_cast.Protocol.Packet.RoundTrip.{encode_view, DataFits}
use site_repair_cast.Protocol.Section.{
  section_id_for_block, section_first_block, section_block_count,
}
use site_repair_cast.Proxy.Repair.Round.{repair_packet}
use site_repair_cast.Proxy.Repair.Round.Packets.{read_block-DataFits, repair_view}
use site_repair_cast.Proxy.Status.{validate_missing_bitmap}
use site_repair_cast.Proxy.Status.Accepts.{report-accepted}
use site_repair_cast.Receiver.Datagram.{
  payload_matches, accepts, process_data, process_packet, process_datagram, packet_limit,
}
use site_repair_cast.Receiver.Datagram.Deadline.{process_datagram-IsTimed, IsTimed}
use site_repair_cast.Receiver.Datagram.Delivery.{
  receive_all_complete, receive_all-IsSound, block_packet-Carries, receive_all, AllCarry, IsSound,
}
use site_repair_cast.Receiver.Datagram.Integrity.{Carries}
use site_repair_cast.Receiver.Datagram.Validity.{process_datagram-IsValid, Open, IsValid}
use site_repair_cast.Receiver.Drain.{begin_drain_for_round}
use site_repair_cast.Receiver.Drain.Rounds.{
  Collects, begin_drain_for_round_forward, NotBehind, begin_drain_for_round_reported,
}
use site_repair_cast.Receiver.Missing.{make_missing_bitmap}
use site_repair_cast.Receiver.Missing.Laws.{make_missing_bitmap_lem, Marks}
use site_repair_cast.Receiver.State.{DrainState, TransferState}
use site_repair_cast.Tests.States.{source, fresh, full, waiting, fresh-IsValid, fresh-IsSound}

abbrev first_block : DataPacketView
first_block = repair_view source 3 7 0 0

abbrev frame : List ℕ
unfolding repair_packet read_block encode_data crc32
frame = elim (repair_packet source 3 7 0 0) [ ok bytes ↦ bytes | err _ ↦ [] ]

encode_frame : encode_view first_block ≡ ok frame
unfolding frame repair_packet read_block encode_data crc32
encode_frame = refl

first_block-DataFits : DataFits first_block
first_block-DataFits = read_block-DataFits source 3 7 0 0 (omega arith) (omega arith) (omega arith)

whole_frame : take packet_limit frame ≡ frame
unfolding frame put_u16 put_u32 put_u64
whole_frame = refl

frame-Carries : Carries source (take packet_limit frame)
frame-Carries =
    subst (Carries source) (sym whole_frame)
      (block_packet-Carries source first_block frame 3 first_block-DataFits encode_frame refl refl)

short_noise : decode_data (1 ∷ 2 ∷ 3 ∷ []) ≡ err invalid_size
unfolding decode_data read_common get_u16 get_u32 get_u64
short_noise = refl

cut_frame : decode_data (take packet_limit (take 30 frame)) ≡ err invalid_size
unfolding frame put_u16 put_u32 put_u64 decode_data read_common get_u16 get_u32 get_u64
cut_frame = refl

refused :
    (bytes : List ℕ) (e : Error)
    → decode_data (take packet_limit bytes) ≡ err e
    → Carries source (take packet_limit bytes)
refused bytes e h = λ p h'. absurd cc

-- The first datagram is noise, the second is cut short, the third is the block.
abbrev arrivals : List (ℕ × List ℕ)
arrivals = (1, 1 ∷ 2 ∷ 3 ∷ []) ∷ (2, take 30 frame) ∷ (3, frame) ∷ []

arrivals-AllCarry : AllCarry source arrivals
arrivals-AllCarry = (
  refused (1 ∷ 2 ∷ 3 ∷ []) invalid_size short_noise,
  (refused (take 30 frame) invalid_size cut_frame, (frame-Carries, tt)),
)

receive_all-IsSound_example : Open (IsSound source) (receive_all [] arrivals (some fresh) waiting).0
receive_all-IsSound_example =
    receive_all-IsSound source [] arrivals (some fresh) waiting arrivals-AllCarry fresh-IsSound

process_datagram-IsValid_example : Open IsValid (process_datagram [] 3 (some fresh) waiting frame).0
process_datagram-IsValid_example =
    process_datagram-IsValid [] 3 (some fresh) waiting frame fresh-IsValid

process_datagram-IsTimed_example : IsTimed (process_datagram [] 3 (some fresh) waiting frame).1
process_datagram-IsTimed_example =
    process_datagram-IsTimed [] 3 (some fresh) waiting frame (λ draining. omega arith)
      (λ draining. refl)

begin_drain_for_round_reported_example : (begin_drain_for_round 5 full waiting 0 1 1).1 ≡ waiting
begin_drain_for_round_reported_example =
    begin_drain_for_round_reported 5 full waiting 0 1 1 1 refl refl (omega arith)

-- The collection of round 1.
abbrev collecting : DrainState
collecting = record waiting { draining = true; draining_round = 1 }

begin_drain_for_round_forward_example :
    let (s', d') = begin_drain_for_round 5 full collecting 0 2 1 in
    NotBehind (some 0) s'.active_section_id
    × Collects s' d'
    × (s'.active_section_id ≡ some 0
        → NotBehind (some 1) s'.last_end_round
          × (s'.last_reported_round ≡ some 1)
          × (true ≡ true → (d'.draining ≡ true) × (1 ≤ d'.draining_round)))
begin_drain_for_round_forward_example =
    begin_drain_for_round_forward 5 full collecting 0 2 1 (λ _. refl)

only_section : section_first_block 0 64 ≡ ok 0
unfolding section_first_block
only_section = refl

one_block : section_block_count 1 0 64 ≡ ok 1
unfolding section_block_count
one_block = refl

make_missing_bitmap_lem_example :
    (bitmap : List ℕ) × (make_missing_bitmap fresh 0 ≡ ok (bitmap, 1))
    × (length bitmap ≡ bitmap_size_for_blocks 1)
    × Marks fresh.received 0 1 bitmap
make_missing_bitmap_lem_example =
    make_missing_bitmap_lem fresh 0 0 1 (omega arith) only_section one_block

report-accepted_example :
    (bitmap : List ℕ) × (make_missing_bitmap fresh 0 ≡ ok (bitmap, 1))
    × (validate_missing_bitmap
          (record {
            transfer_id = 7;
            section_id = 0;
            round_id = 2;
            status = missing;
            missing_count = 1;
            missing_bitmap = bitmap;
          })
          1
        ≡ ok true)
    × ((i : ℕ) → i < 1 → bitmap_test bitmap i ≡ ok (get_or fresh.received (0 + i) 0 == 0))
report-accepted_example =
    report-accepted fresh 0 2 0 1 (omega arith) only_section one_block (λ z. absurd (omega arith))

-- Both damaged datagrams are counted as rejected, and the block is stored.
abbrev after_arrivals : TransferState
after_arrivals = record fresh {
  output = write_all_at fresh.output (0 ∷ 1 ∷ 2 ∷ []) 0;
  received = 1 ∷ [];
  received_count = 1;
  rejected_count = 2;
}

ends_there : (receive_all [] arrivals (some fresh) waiting).0 ≡ some after_arrivals
unfolding receive_all process_datagram process_packet process_data frame put_u32 put_u16 put_u64
    read_common get_u32 get_u16 get_u64 decode_data accepts section_id_for_block payload_matches
    crc32
ends_there = refl

all_counted : after_arrivals.received_count ≡ after_arrivals.meta.total_blocks
all_counted = refl

two_inside : 2 < after_arrivals.meta.file_size
two_inside = omega arith

receive_all_complete_example : after_arrivals.output 2 ≡ source 2
receive_all_complete_example =
    receive_all_complete source [] arrivals fresh after_arrivals waiting arrivals-AllCarry
      fresh-IsSound ends_there all_counted 2 two_inside
