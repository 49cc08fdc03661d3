-- ===== src/Protocol/Control/Backfill/RoundTrip.antt =====
-- Round trips of the messages of Backfill.antt. `...Fits` states the ranges of the C++ types, and what
-- the encoder asks of its argument.
use mathlib.Core.List.{append-nil}
use site_repair_cast.Common.{
  ℕ, ◌*◌, ◌^◌, ◌<◌, ◌≤◌, ◌≡◌, refl, List, [], ◌∷◌, All, length, length-append, arith, true, false,
  ◌||◌, ◌==◌, ltb, leb, ◌%◌, ok, ◌>>=◌,
}
use site_repair_cast.Protocol.Bytes.{put_u32}
use site_repair_cast.Protocol.Bytes.Laws.{
  wire, long_wire, get_bytes-append, length-put_u32, get_u32-put_u32,
}
use site_repair_cast.Protocol.Control.Backfill.{
  BackfillBeginMessage, encode_backfill_begin, decode_backfill_begin, BackfillEndMessage,
  encode_backfill_end, decode_backfill_end, BackfillDataMessage, encode_backfill_data,
  decode_backfill_data, PeerRepairTaskMessage, encode_peer_repair_task, decode_peer_repair_task,
  put_block_ids, get_block_ids, peer_block_limit,
}
use site_repair_cast.Protocol.Control.Header.{read_control_header}
use site_repair_cast.Protocol.Packet.{payload_limit}

length-put_block_ids : (bs : List ℕ) → length (put_block_ids bs) ≡ length bs * 4
unfolding put_block_ids
length-put_block_ids [] = refl
length-put_block_ids (b ∷ bs) =
    omega (
      arith,
      length-append (put_u32 b) (put_block_ids bs),
      length-put_u32 b,
      length-put_block_ids bs,
    )

get_block_ids_lem :
    (bs : List ℕ)
    → All (λ b. b < 2 ^ 32) bs
    → get_block_ids (length bs) (put_block_ids bs) ≡ ok (bs, [])
unfolding put_block_ids get_block_ids
get_block_ids_lem [] h = refl
get_block_ids_lem (b ∷ bs) h =
    let fits : b % 2 ^ 32 ≡ b = omega arith in
    simp (get_u32-put_u32, fits, get_block_ids_lem bs h.1)

abbrev pub BackfillBeginFits : BackfillBeginMessage → Type 0
BackfillBeginFits m = (m.transfer_id < 2 ^ 64) × (m.total_blocks < 2 ^ 32)

-- A BACKFILL_BEGIN message whose integers are within their C++ types is decoded to the same
-- message.
pub decode_backfill_begin-encode_backfill_begin :
    (m : BackfillBeginMessage)
    → BackfillBeginFits m
    → decode_backfill_begin (encode_backfill_begin m) ≡ ok m
unfolding encode_backfill_begin decode_backfill_begin read_control_header
decode_backfill_begin-encode_backfill_begin m h = simp wire (ground arith)

abbrev pub BackfillEndFits : BackfillEndMessage → Type 0
BackfillEndFits m =
    (m.transfer_id < 2 ^ 64)
    × (m.file_size < 2 ^ 64)
    × (m.total_blocks < 2 ^ 32)
    × (length m.sha256 ≡ 32)

-- A BACKFILL_END message whose integers are within their C++ types, with a digest of 32 bytes, is
-- decoded to the same message.
pub decode_backfill_end-encode_backfill_end :
    (m : BackfillEndMessage)
    → BackfillEndFits m
    → decode_backfill_end (encode_backfill_end m) ≡ ok m
unfolding encode_backfill_end decode_backfill_end read_control_header
decode_backfill_end-encode_backfill_end m h = simp (wire, get_bytes-append, h.3) (ground arith)

abbrev pub BackfillDataFits : BackfillDataMessage → Type 0
BackfillDataFits m =
    (m.transfer_id < 2 ^ 64)
    × (m.block_id < 2 ^ 32)
    × (m.offset < 2 ^ 64)
    × (m.crc32 < 2 ^ 32)
    × (m.payload_size ≡ length m.payload)
    × (length m.payload ≤ payload_limit)

-- A BACKFILL_DATA message whose integers are within their C++ types, with at most 1200 bytes of
-- payload and their number as its payload size, is encoded without an error and decoded to the same
-- message.
pub decode_backfill_data-encode_backfill_data :
    (m : BackfillDataMessage)
    → BackfillDataFits m
    → (encode_backfill_data m >>= decode_backfill_data) ≡ ok m
unfolding encode_backfill_data decode_backfill_data read_control_header
decode_backfill_data-encode_backfill_data m h =
    let small : leb (length m.payload) payload_limit ≡ true = ground arith in
    let declared : m.payload_size ≡ length m.payload = omega arith in
    let size : length m.payload % 2 ^ 16 ≡ length m.payload = omega arith in
    simp (long_wire, declared, small, size) (ground arith)

abbrev pub PeerRepairTaskFits : PeerRepairTaskMessage → Type 0
PeerRepairTaskFits m =
    (m.transfer_id < 2 ^ 64)
    × (m.section_id < 2 ^ 32)
    × (m.round_id < 2 ^ 32)
    × (m.task_id < 2 ^ 64)
    × (m.target_ipv4 < 2 ^ 32)
    × (m.target_port < 2 ^ 16)
    × (1 ≤ length m.block_ids)
    × (length m.block_ids ≤ peer_block_limit)
    × All (λ b. b < 2 ^ 32) m.block_ids

-- A PEER_REPAIR_TASK message whose integers are within their C++ types and which has 1 to 64 blocks
-- is encoded without an error and decoded to the same message.
pub decode_peer_repair_task-encode_peer_repair_task :
    (m : PeerRepairTaskMessage)
    → PeerRepairTaskFits m
    → (encode_peer_repair_task m >>= decode_peer_repair_task) ≡ ok m
unfolding encode_peer_repair_task decode_peer_repair_task read_control_header
decode_peer_repair_task-encode_peer_repair_task m h =
    let counted : (length m.block_ids == 0 || ltb peer_block_limit (length m.block_ids)) ≡ false =
      ground arith in
    let some_blocks : leb 1 (length m.block_ids) ≡ true = ground arith in
    let few_blocks : leb (length m.block_ids) peer_block_limit ≡ true = ground arith in
    let size : length m.block_ids % 2 ^ 32 ≡ length m.block_ids = omega arith in
    simp
      (
        long_wire,
        counted,
        some_blocks,
        few_blocks,
        size,
        length-put_block_ids,
        append-nil,
        get_block_ids_lem m.block_ids h.8,
      )
      (ground arith)
