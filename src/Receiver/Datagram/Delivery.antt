-- ===== src/Receiver/Datagram/Delivery.antt =====
-- A run of datagrams, and what a receiver has when its count is full.
use mathlib.Core.Path.{subst}
use site_repair_cast.Common.{
  ok_injective, ap, ◌∙◌, sym, [], ◌∷◌, suc, zero, none, some, ok, ◌≢◌, arith, get_or, length, ◌/◌,
  take, ◌<◌, ◌≤◌, ◌≡◌, All, Option, ℕ, List,
}
use site_repair_cast.FileIo.{block_bytes, read_block, Contents}
use site_repair_cast.FileIo.Laws.{length-slice}
use site_repair_cast.Protocol.Packet.{CommonHeader, payload_limit, DataPacketView}
use site_repair_cast.Protocol.Packet.RoundTrip.{decode_data-encode_data, encode_view, DataFits}
use site_repair_cast.Receiver.Datagram.{process_packet, process_datagram, packet_limit}
use site_repair_cast.Receiver.Datagram.Integrity.{process_packet-Agrees, Carries, Agrees}
use site_repair_cast.Receiver.Datagram.Validity.{
  sum-le-length, process_packet-IsValid, sum, Open, IsValid,
}
use site_repair_cast.Receiver.State.{reject, DrainState, TransferState}

-- The datagrams that reach the receiver, each with the time of its arrival.
unfoldable pub receive_all :
    List ℕ
    → List (ℕ × List ℕ)
    → Option TransferState
    → DrainState
    → Option TransferState × DrainState
receive_all drops [] t d = (t, d)
receive_all drops ((now, datagram) ∷ rest) t d =
    let (t', d') = process_datagram drops now t d datagram in receive_all drops rest t' d'

abbrev pub IsSound : Contents → TransferState → Type 0
IsSound source s = IsValid s × Agrees source s

-- Every datagram, as far as the buffer holds it, carries bytes of `source` or fails its CRC.
abbrev pub AllCarry : Contents → List (ℕ × List ℕ) → Type 0
AllCarry source = All λ arrival. Carries source (take packet_limit arrival.1)

process_datagram_cases :
    (P : TransferState → Type 0) (drops : List ℕ) (now : ℕ) (s : TransferState) (d : DrainState)
    (datagram : List ℕ)
    → P s
    → P (reject s)
    → ((c : CommonHeader) → P (process_packet drops now s d c (take packet_limit datagram)).0)
    → Open P (process_datagram drops now (some s) d datagram).0
unfolding process_datagram
process_datagram_cases P drops now s d datagram same rejected packet = grind arith

reject-IsSound :
    (source : Contents) (s : TransferState) → IsSound source s → IsSound source (reject s)
reject-IsSound source s h = (ground arith, h.1)

process_datagram-IsSound :
    (source : Contents) (drops : List ℕ) (now : ℕ) (t : Option TransferState) (d : DrainState)
    (datagram : List ℕ)
    → Carries source (take packet_limit datagram)
    → Open (IsSound source) t
    → Open (IsSound source) (process_datagram drops now t d datagram).0
process_datagram-IsSound source drops now none d datagram g h = unfold process_datagram in tt
process_datagram-IsSound source drops now (some s) d datagram g h =
    process_datagram_cases (IsSound source) drops now s d datagram h (reject-IsSound source s h)
      (λ c. (
        process_packet-IsValid drops now s d c _ h.0,
        process_packet-Agrees source drops now s d c _ h.0 g h.1,
      ))

-- However the datagrams are lost, repeated, reordered or damaged, as long as each carries bytes of
-- `source` or fails its CRC, a sound state stays sound: it is valid, and every block that is marked
-- holds the bytes of `source`.
pub receive_all-IsSound :
    (source : Contents) (drops : List ℕ) (arrivals : List (ℕ × List ℕ)) (t : Option TransferState)
    (d : DrainState)
    → AllCarry source arrivals
    → Open (IsSound source) t
    → Open (IsSound source) (receive_all drops arrivals t d).0
unfolding receive_all
receive_all-IsSound source drops [] t d g h = h
receive_all-IsSound source drops ((now, datagram) ∷ rest) t d g h =
    receive_all-IsSound source drops rest (process_datagram drops now t d datagram).0
      (process_datagram drops now t d datagram).1 g.1
      (process_datagram-IsSound source drops now t d datagram g.0 h)

full_marks :
    (rs : List ℕ) (b : ℕ)
    → All (λ r. r ≤ 1) rs
    → sum rs ≡ length rs
    → b < length rs
    → get_or rs b 0 ≢ 0
full_marks [] b f e h = absurd (omega arith)
full_marks (r ∷ rs) zero f e h = λ z. absurd (omega (arith, sum-le-length rs f.1))
full_marks (r ∷ rs) (suc b) f e h =
    full_marks rs b f.1 (omega (arith, sum-le-length rs f.1)) (omega arith)

-- A receiver that counts all blocks has the whole file.
pub complete_output :
    (source : Contents) (s : TransferState) (i : ℕ)
    → IsSound source s
    → s.received_count ≡ s.meta.total_blocks
    → i < s.meta.file_size
    → s.output i ≡ source i
complete_output source s i h full inside =
    h.1 (i / payload_limit) i
      (full_marks s.received (i / payload_limit) h.0.flags (omega (arith, h.0.counted, h.0.mapped))
        (omega (arith, h.0.mapped, h.0.consistent.covered)))
      (omega arith)

-- If every datagram carries bytes of `source` or fails its CRC, and the receiver starts in a sound
-- state, then whenever it counts all blocks its output is `source` up to the size of the file.
pub receive_all_complete :
    (source : Contents) (drops : List ℕ) (arrivals : List (ℕ × List ℕ)) (s s' : TransferState)
    (d : DrainState)
    → AllCarry source arrivals
    → IsSound source s
    → (receive_all drops arrivals (some s) d).0 ≡ some s'
    → s'.received_count ≡ s'.meta.total_blocks
    → (i : ℕ) → i < s'.meta.file_size
    → s'.output i ≡ source i
receive_all_complete source drops arrivals s s' d carry sound e full i inside =
    complete_output source s' i
      (subst (Open (IsSound source)) e
        (receive_all-IsSound source drops arrivals (some s) d carry sound))
      full inside

-- The packet that a sender makes of block `b` of `source` is one of those.
pub block_packet-Carries :
    (source : Contents) (p : DataPacketView) (frame : List ℕ) (file_size : ℕ)
    → DataFits p
    → encode_view p ≡ ok frame
    → p.offset ≡ (read_block source file_size p.block_id).offset
    → p.payload ≡ (read_block source file_size p.block_id).payload
    → Carries source frame
unfolding read_block
block_packet-Carries source p frame file_size fits e o q p' e' passed =
    let same : p' ≡ p = ok_injective (sym e' ∙ (rw e at (decode_data-encode_data p fits))) in
    let size : length p.payload ≡ block_bytes file_size p.block_id =
      ap length q ∙ length-slice source _ _ in
    rw same (q ∙ cc (size, o))
