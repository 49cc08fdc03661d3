-- ===== src/Stream/Reader.antt =====
-- `ControlStreamReader`: its buffer, the loop over `recv`, and the loop that cuts off frames.
use site_repair_cast.Common.{
  drop, take, invalid_frame_size, ltb, ◌||◌, ◌==◌, zero, if◌then◌else◌, true, ◌++◌, some, none,
  receive_failed, ◌∷◌, suc, err, length, Option, ok, Result, false, Bool, ℕ, [], List, ◌>>=◌,
}
use site_repair_cast.Protocol.Bytes.{get_u32}
use site_repair_cast.Protocol.Control.Header.{control_frame_limit}
pub mod Cuts
pub mod Split
pub mod Calls
pub mod Wire

pub record ControlStreamReader : Type 0 where
  pub buffer : List ℕ
  pub peer_closed : Bool

abbrev pub fresh_reader : ControlStreamReader
fresh_reader = record { buffer = []; peer_closed = false }

-- What `recv` with MSG_DONTWAIT answers; a chunk of no bytes is the end of the stream.
pub data Recv : Type 0 where
  chunk : List ℕ → Recv
  signal would_block broken : Recv

-- The loop over `recv`. Where the answers end, the next one would be EAGAIN.
unfoldable pub receive_chunks : List Recv → ControlStreamReader → Result ControlStreamReader
receive_chunks [] r = ok r
receive_chunks (signal ∷ answers) r = receive_chunks answers r
receive_chunks (would_block ∷ answers) r = ok r
receive_chunks (broken ∷ answers) r = err receive_failed
receive_chunks (chunk [] ∷ answers) r = ok (record r { peer_closed = true })
receive_chunks (chunk (b ∷ bytes) ∷ answers) r =
    receive_chunks answers (record r { buffer = r.buffer ++ (b ∷ bytes) })

-- A frame and the bytes behind it, if the frame is whole, from the bytes behind its size.
unfoldable pub cut_at : ℕ → List ℕ → Result (Option (List ℕ × List ℕ))
cut_at frame_size rest =
    if frame_size == 0 || ltb control_frame_limit frame_size
    then err invalid_frame_size
    else if ltb (length rest) frame_size
    then ok none
    else ok (some (take frame_size rest, drop frame_size rest))

-- One round of the loop over the buffer from `consumed` on.
unfoldable pub next_frame : List ℕ → Result (Option (List ℕ × List ℕ))
unfolding cut_at
next_frame bytes = elim (get_u32 bytes) [
  | err _ ↦ ok none
  | ok (frame_size, rest) ↦ cut_at frame_size rest
]

-- Each round takes at least five bytes, so that `length bytes` rounds are enough.
unfoldable pub cut_frames : ℕ → List ℕ → Result (List (List ℕ) × List ℕ)
cut_frames zero bytes = ok ([], bytes)
cut_frames (suc rounds) bytes = elim (next_frame bytes) [
  | err e ↦ err e
  | ok none ↦ ok ([], bytes)
  | ok (some (frame, rest)) ↦ do (frames, left) ← cut_frames rounds rest; ok (frame ∷ frames, left)
]

unfoldable pub read_frames :
    List Recv → ControlStreamReader → Result (List (List ℕ) × ControlStreamReader)
unfolding receive_chunks cut_frames next_frame
read_frames answers r = do
  r' ← receive_chunks answers r
  (frames, left) ← cut_frames (length r'.buffer) r'.buffer
  ok (frames, record r' { buffer = left })

-- The calls of the event loop, one after the other, and all their frames.
unfoldable pub read_all_frames :
    List (List Recv) → ControlStreamReader → Result (List (List ℕ) × ControlStreamReader)
read_all_frames [] r = ok ([], r)
read_all_frames (answers ∷ calls) r = do
  (frames, r') ← read_frames answers r
  (more, r'') ← read_all_frames calls r'
  ok (frames ++ more, r'')
