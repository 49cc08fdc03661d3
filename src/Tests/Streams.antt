-- ===== src/Tests/Streams.antt =====
-- Two frames that come in three pieces over two calls, and a message of each end of the wire.
use site_repair_cast.Common.{invalid_frame_size, arith, [], ◌≡◌, ◌∷◌, ℕ, List, ◌>>=◌, ok, err, refl}
use site_repair_cast.Protocol.Bytes.{get_u32, put_u32}
use site_repair_cast.Protocol.Control.Message.{
  read_message, meta_ready_message, encode_message, Message,
}
use site_repair_cast.Protocol.Control.Message.RoundTrip.{read_message-encode_message}
use site_repair_cast.Stream.Frames.{frame_bytes, wire_of}
use site_repair_cast.Stream.Reader.{
  cut_at, next_frame, cut_frames, fresh_reader, Recv, read_all_frames, chunk, signal, would_block,
}
use site_repair_cast.Stream.Reader.Calls.{read_all_frames-cut, what_is_read, received, all_received}
use site_repair_cast.Stream.Reader.Split.{cut}
use site_repair_cast.Stream.Reader.Wire.{read_all_frames-wire_of}

abbrev calls : List (List Recv)
calls =
    (chunk (0 ∷ 0 ∷ []) ∷ signal ∷ chunk (0 ∷ 1 ∷ 9 ∷ 0 ∷ []) ∷ would_block ∷ [])
    ∷ (chunk (0 ∷ 0 ∷ 2 ∷ 8 ∷ 7 ∷ []) ∷ [])
    ∷ []

abbrev bytes : List ℕ
bytes = 0 ∷ 0 ∷ 0 ∷ 1 ∷ 9 ∷ 0 ∷ 0 ∷ 0 ∷ 2 ∷ 8 ∷ 7 ∷ []

bytes_received : all_received calls ≡ ok bytes
unfolding all_received received
bytes_received = refl

bytes_sent : wire_of ((9 ∷ []) ∷ (8 ∷ 7 ∷ []) ∷ []) ≡ ok bytes
unfolding wire_of frame_bytes put_u32
bytes_sent = refl

read_all_frames-cut_example : (read_all_frames calls fresh_reader >>= what_is_read) ≡ cut bytes
read_all_frames-cut_example = read_all_frames-cut calls bytes bytes_received

read_all_frames-wire_of_example :
    (read_all_frames calls fresh_reader >>= what_is_read) ≡ ok ((9 ∷ []) ∷ (8 ∷ 7 ∷ []) ∷ [], [])
read_all_frames-wire_of_example =
    read_all_frames-wire_of calls ((9 ∷ []) ∷ (8 ∷ 7 ∷ []) ∷ []) bytes bytes_received bytes_sent

-- A size of 0 is refused, and so is what comes behind it.
refused_size : cut (0 ∷ 0 ∷ 0 ∷ 0 ∷ 5 ∷ []) ≡ err invalid_frame_size
unfolding cut cut_frames next_frame cut_at get_u32
refused_size = refl

abbrev ready : Message
ready = meta_ready_message (record { transfer_id = 7 })

read_message-encode_message_example : (encode_message ready >>= read_message) ≡ ok ready
read_message-encode_message_example = read_message-encode_message ready (omega arith)
