-- ===== src/Stream/Frames.antt =====
-- `send_control_frame`: the bytes that it writes.
use site_repair_cast.Common.{
  invalid_frame_size, err, ltb, [], ◌||◌, ◌++◌, ◌==◌, ◌∷◌, length, ok, if◌then◌else◌, Result, ℕ,
  List, ◌>>=◌,
}
use site_repair_cast.Protocol.Bytes.{put_u32, written}
use site_repair_cast.Protocol.Control.Header.{control_frame_limit}

unfoldable pub frame_bytes : List ℕ → Result (List ℕ)
frame_bytes frame =
    if length frame == 0 || ltb control_frame_limit (length frame)
    then err invalid_frame_size
    else ok (written (put_u32 (length frame) ∷ frame ∷ []))

-- The bytes of the frames that are sent one after the other.
unfoldable pub wire_of : List (List ℕ) → Result (List ℕ)
unfolding frame_bytes
wire_of [] = ok []
wire_of (frame ∷ frames) = do bytes ← frame_bytes frame; rest ← wire_of frames; ok (bytes ++ rest)
