-- ===== src/Receiver/Datagram/Integrity.antt =====
-- The output of the receiver over `process_udp_ready`, against the file that is sent.
use mathlib.Core.Path.{subst}
use native.Mathlib.Decide.{ℕ_discrete, dec_lt}
use site_repair_cast.Checksum.{crc32}
use site_repair_cast.Common.{
  ◌∙◌, sym, ◌⊎◌, ℕ, zero, suc, ap, ◌+◌, ◌-◌, ◌*◌, ◌<◌, ◌≤◌, ◌≡◌, ◌≢◌, refl, List, [], ◌∷◌, length,
  get_or, set, min, arith, inl, inr, ok, true,
}
use site_repair_cast.FileIo.{Contents, slice, write_all_at}
use site_repair_cast.FileIo.Laws.{write_all_at_inside, write_all_at_outside}
use site_repair_cast.Protocol.Packet.{CommonHeader, DataPacketView, payload_limit, decode_data}
use site_repair_cast.Protocol.Packet.Sizes.{payload_size-decode_data}
use site_repair_cast.Receiver.Datagram.{
  accepts, payload_matches, store_block, process_data, process_packet,
}
use site_repair_cast.Receiver.Datagram.Validity.{IsValid, IsConsistent}
use site_repair_cast.Receiver.Drain.{begin_drain_for_round}
use site_repair_cast.Receiver.State.{reject, TransferState, DrainState}

-- The offsets of block `b` in a file.
abbrev pub InBlock : ℕ → ℕ → ℕ → Type 0
InBlock file_size b i =
    (b * payload_limit ≤ i) × (i < b * payload_limit + payload_limit) × (i < file_size)

-- Every block that is marked holds the bytes of `source`.
abbrev pub Agrees : Contents → TransferState → Type 0
Agrees source s =
    (b i : ℕ) → get_or s.received b 0 ≢ 0 → InBlock s.meta.file_size b i → s.output i ≡ source i

-- The payload of a DATA packet that passes its CRC is what `source` has at its offset.
abbrev pub IsGenuine : Contents → DataPacketView → Type 0
IsGenuine source p =
    crc32 p.payload ≡ p.crc32 → p.payload ≡ slice source p.offset (length p.payload)

pub get_or-set_other : (rs : List ℕ) (i j v : ℕ) → i ≢ j → get_or (set rs i v) j 0 ≡ get_or rs j 0
get_or-set_other [] i j v h = refl
get_or-set_other (r ∷ rs) zero zero v h = absurd (h refl)
get_or-set_other (r ∷ rs) zero (suc j) v h = refl
get_or-set_other (r ∷ rs) (suc i) zero v h = refl
get_or-set_other (r ∷ rs) (suc i) (suc j) v h = get_or-set_other rs i j v (λ e. h (ap suc e))

-- What an accepted packet says of itself.
abbrev pub Fills : TransferState → DataPacketView → Type 0
Fills s p =
    (p.block_id < s.meta.total_blocks)
    × (p.offset ≡ p.block_id * payload_limit)
    × (p.payload_size ≡ min payload_limit (s.meta.file_size - p.block_id * payload_limit))
    × (crc32 p.payload ≡ p.crc32)

accepts-Fills :
    (s : TransferState) (p : DataPacketView) → IsConsistent s.meta → accepts s p ≡ true → Fills s p
unfolding accepts payload_matches
accepts-Fills s p c h = ground (arith, ap (λ (t : ℕ). p.block_id * t) c.blocks)

pub store_block-Agrees :
    (source : Contents) (s : TransferState) (p : DataPacketView)
    → Fills s p
    → p.payload_size ≡ length p.payload
    → IsGenuine source p
    → Agrees source s
    → Agrees source (store_block s p.block_id p.payload p.offset)
store_block-Agrees source s p f e g a b i marked inside = elim (ℕ_discrete p.block_id b) [
  | yes this ↦
      subst (λ payload. write_all_at s.output payload p.offset i ≡ source i) (sym (g f.3))
        (write_all_at_inside s.output source p.offset (length p.payload) i (omega arith)
          (omega arith))
  | no other ↦
      write_all_at_outside s.output p.payload p.offset i (outside b i other inside)
      ∙ a b i (rw (get_or-set_other s.received p.block_id b 1 other) at marked) inside
]
  where
    outside :
        (b i : ℕ)
        → p.block_id ≢ b
        → InBlock s.meta.file_size b i
        → (i < p.offset) ⊎ (p.offset + length p.payload ≤ i)
    outside b i other inside = elim (dec_lt b p.block_id) [
      | yes before ↦ inl (omega arith)
      | no after ↦ inr (omega (arith, other))
    ]

process_data-Agrees :
    (source : Contents) (drops : List ℕ) (now : ℕ) (s : TransferState) (d : DrainState)
    (p : DataPacketView)
    → IsValid s
    → p.payload_size ≡ length p.payload
    → IsGenuine source p
    → Agrees source s
    → Agrees source (process_data drops now s d p).0
unfolding process_data
process_data-Agrees source drops now s d p v e g a = ground (
  arith,
  accepts-Fills s p v.consistent,
  λ (f : Fills s p). store_block-Agrees source s p f e g a,
)

-- What a datagram brings for the transfer, if it is a DATA packet.
abbrev pub Carries : Contents → List ℕ → Type 0
Carries source bytes = (p : DataPacketView) → decode_data bytes ≡ ok p → IsGenuine source p

begin_drain_for_round-Agrees :
    (source : Contents) (now : ℕ) (s : TransferState) (d : DrainState)
    (section_id round_id total_blocks : ℕ)
    → Agrees source s
    → Agrees source (begin_drain_for_round now s d section_id round_id total_blocks).0
unfolding begin_drain_for_round
begin_drain_for_round-Agrees source now s d section_id round_id total_blocks a = ground arith

process_packet_cases :
    (P : TransferState → Type 0) (drops : List ℕ) (now : ℕ) (s : TransferState) (d : DrainState)
    (c : CommonHeader) (bytes : List ℕ)
    → P s
    → P (reject s)
    → ((p : DataPacketView) → decode_data bytes ≡ ok p → P (process_data drops now s d p).0)
    → ((section_id round_id total_blocks : ℕ)
        → P (begin_drain_for_round now s d section_id round_id total_blocks).0)
    → P (process_packet drops now s d c bytes).0
unfolding process_packet
process_packet_cases P drops now s d c bytes same rejected stored drained = grind arith

pub process_packet-Agrees :
    (source : Contents) (drops : List ℕ) (now : ℕ) (s : TransferState) (d : DrainState)
    (c : CommonHeader) (bytes : List ℕ)
    → IsValid s
    → Carries source bytes
    → Agrees source s
    → Agrees source (process_packet drops now s d c bytes).0
unfolding process_packet
process_packet-Agrees source drops now s d c bytes v g a =
    process_packet_cases (Agrees source) drops now s d c bytes a a
      (λ p e.
        process_data-Agrees source drops now s d p v (payload_size-decode_data bytes p e).0 (g p e)
          a)
      (λ section_id round_id total_blocks.
        begin_drain_for_round-Agrees source now s d section_id round_id total_blocks a)
