-- ===== src/Stream/Reader/Calls.antt =====
-- The calls of the event loop, against the bytes that they receive.
use mathlib.Core.List.{append_assoc, append-nil}
use mathlib.Core.Path.{subst}
use site_repair_cast.Common.{
  ok_injective, bind_ok, ap, arith, refl, ◌∙◌, sym, zero, receive_failed, suc, err, none, ◌++◌, [],
  ◌∷◌, ok, ◌≡◌, ◌≤◌, Result, length, ℕ, List, ◌>>=◌,
}
use site_repair_cast.Stream.Reader.{
  fresh_reader, read_frames, cut_frames, read_all_frames, broken, would_block, signal, chunk,
  next_frame, ControlStreamReader, Recv, receive_chunks,
}
use site_repair_cast.Stream.Reader.Cuts.{cuts, fails, stuck, next_frame-Round}
use site_repair_cast.Stream.Reader.Split.{
  cut-append, cut_more, cut-cuts, cut-fails, stuck_empty, cut-stuck, prepend, cut,
}

-- The bytes that a call receives, where no `recv` of it fails.
unfoldable pub received : List Recv → Result (List ℕ)
received [] = ok []
received (signal ∷ answers) = received answers
received (would_block ∷ answers) = ok []
received (broken ∷ answers) = err receive_failed
received (chunk [] ∷ answers) = ok []
received (chunk (b ∷ bytes) ∷ answers) = do more ← received answers; ok ((b ∷ bytes) ++ more)

unfoldable pub all_received : List (List Recv) → Result (List ℕ)
unfolding received
all_received [] = ok []
all_received (answers ∷ calls) = do
  bytes ← received answers
  more ← all_received calls
  ok (bytes ++ more)

-- The frames and the bytes left of a reading.
unfoldable pub what_is_read : List (List ℕ) × ControlStreamReader → Result (List (List ℕ) × List ℕ)
what_is_read (frames, r) = ok (frames, r.buffer)

unfoldable buffer_of : ControlStreamReader → Result (List ℕ)
buffer_of r = ok r.buffer

unfoldable behind : List ℕ → List ℕ → Result (List ℕ)
behind bytes more = ok (bytes ++ more)

prepend_left :
    (r : Result (List (List ℕ) × List ℕ)) (before frames : List (List ℕ)) (left : List ℕ)
    → r >>= prepend before ≡ ok (frames, left)
    → (after : List (List ℕ)) × r ≡ ok (after, left)
unfolding prepend
prepend_left (err e) before frames left h = absurd cc
prepend_left (ok (after, left')) before frames left h = (after, cc)

-- The bytes that are left hold no whole frame.
cut-left_stuck :
    (xs left : List ℕ) (frames : List (List ℕ))
    → next_frame xs ≡ ok none
    → cut xs ≡ ok (frames, left)
    → cut left ≡ ok ([], left)
cut-left_stuck xs left frames stop h =
    let both : ◌≡◌ {A = Result (List (List ℕ) × List ℕ)} (ok ([], xs)) (ok (frames, left)) =
      sym (cut-stuck xs stop) ∙ h in
    let same : xs ≡ left = cc in subst (λ l. cut l ≡ ok ([], l)) same (cut-stuck xs stop)

cut-left_within :
    (n : ℕ) (xs left : List ℕ) (frames : List (List ℕ))
    → length xs ≤ n
    → cut xs ≡ ok (frames, left)
    → cut left ≡ ok ([], left)
cut-left_within zero xs left frames hn h = cut-left_stuck xs left frames (stuck_empty xs hn) h
cut-left_within (suc n) xs left frames hn h = elim (next_frame-Round xs []) [
  | stuck stop ↦ cut-left_stuck xs left frames stop h
  | fails e _ stop _ ↦
      let both : ◌≡◌ {A = Result (List (List ℕ) × List ℕ)} (err e) (ok (frames, left)) =
        sym (cut-fails xs e stop) ∙ h in
      absurd cc
  | cuts frame rest more _ less ↦
      let (after, g) =
        prepend_left (cut rest) (frame ∷ []) frames left
          (sym (cut-cuts xs frame rest more less) ∙ h) in
      cut-left_within n rest left after (omega arith) g
]

behind_twice :
    (r : Result (List ℕ)) (xs ys : List ℕ)
    → r >>= behind (xs ++ ys) ≡ (r >>= behind ys) >>= behind xs
unfolding behind
behind_twice (err e) xs ys = refl
behind_twice (ok zs) xs ys = rw append_assoc

receive_chunks-received :
    (answers : List Recv) (r : ControlStreamReader)
    → receive_chunks answers r >>= buffer_of ≡ received answers >>= behind r.buffer
unfolding received receive_chunks buffer_of behind
receive_chunks-received [] r = rw append-nil
receive_chunks-received (signal ∷ answers) r = receive_chunks-received answers r
receive_chunks-received (would_block ∷ answers) r = rw append-nil
receive_chunks-received (broken ∷ answers) r = refl
receive_chunks-received (chunk [] ∷ answers) r = rw append-nil
receive_chunks-received (chunk (b ∷ more) ∷ answers) r =
    receive_chunks-received answers (record r { buffer = r.buffer ++ (b ∷ more) })
    ∙ behind_twice (received answers) r.buffer (b ∷ more)

keeps_left :
    (m : Result (List (List ℕ) × List ℕ)) (r : ControlStreamReader)
    → (m >>= λ (frames, left). ok (frames, record r { buffer = left })) >>= what_is_read ≡ m
unfolding what_is_read
keeps_left (err e) r = refl
keeps_left (ok (frames, left)) r = refl

cuts_buffer :
    (m : Result ControlStreamReader)
    → (do
      r ← m
      (frames, left) ← cut_frames (length r.buffer) r.buffer
      ok (frames, record r { buffer = left }))
        >>= what_is_read
      ≡ (m >>= buffer_of) >>= cut
unfolding what_is_read cut buffer_of
cuts_buffer (err e) = refl
cuts_buffer (ok r) = keeps_left (cut_frames (length r.buffer) r.buffer) r

behind-cut :
    (m : Result (List ℕ)) (xs : List ℕ)
    → (m >>= behind xs) >>= cut ≡ m >>= λ bytes. cut (xs ++ bytes)
unfolding behind
behind-cut (err e) xs = refl
behind-cut (ok bytes) xs = refl

read_frames-received :
    (answers : List Recv) (r : ControlStreamReader)
    → read_frames answers r >>= what_is_read ≡ received answers >>= λ bytes. cut (r.buffer ++ bytes)
unfolding read_frames what_is_read cut
read_frames-received answers r =
    cuts_buffer (receive_chunks answers r)
    ∙ ap (λ m. m >>= cut) (receive_chunks-received answers r)
    ∙ behind-cut (received answers) r.buffer

-- The frames of the first call, before those of the calls after it.
unfoldable first_then :
    List (List ℕ)
    → List (List ℕ) × ControlStreamReader
    → Result (List (List ℕ) × ControlStreamReader)
first_then frames (more, r) = ok (frames ++ more, r)

first_then-prepend :
    (later : Result (List (List ℕ) × ControlStreamReader)) (frames : List (List ℕ))
    → (later >>= first_then frames) >>= what_is_read ≡ (later >>= what_is_read) >>= prepend frames
unfolding first_then what_is_read prepend
first_then-prepend (err e) frames = refl
first_then-prepend (ok (more, r)) frames = refl

-- A call leaves no whole frame in the buffer, and the next calls go on from there.
module _ (calls : List (List Recv)) (bytes more : List ℕ) where
  -- Bytes that the first call cuts, and that are read behind what it leaves.
  read_all_frames_step :
      (first : Result (List (List ℕ) × ControlStreamReader))
      → first >>= what_is_read ≡ cut bytes
      → ((r : ControlStreamReader)
          → cut r.buffer ≡ ok ([], r.buffer)
          → read_all_frames calls r >>= what_is_read ≡ cut (r.buffer ++ more))
      → (first >>= λ (frames, r). read_all_frames calls r >>= first_then frames) >>= what_is_read
        ≡ cut (bytes ++ more)
  unfolding what_is_read cut_more
  read_all_frames_step (err e) now later = now' ∙ sym (cut-append bytes more)
    where
      now' : err e ≡ cut bytes >>= cut_more more
      now' = ap (λ m. m >>= cut_more more) now
  read_all_frames_step (ok (frames, r)) now later =
      first_then-prepend (read_all_frames calls r) frames
      ∙ ap (λ m. m >>= prepend frames)
          (later r (cut-left_within (length bytes) bytes r.buffer frames (omega arith) (sym now)))
      ∙ ap (λ m. m >>= cut_more more) now
      ∙ sym (cut-append bytes more)

all_received-cons :
    (answers : List Recv) (calls : List (List Recv)) (bytes : List ℕ)
    → all_received (answers ∷ calls) ≡ ok bytes
    → (now later : List ℕ) × received answers ≡ ok now
      × all_received calls ≡ ok later
      × now ++ later ≡ bytes
unfolding all_received
all_received-cons answers calls bytes h =
    let (now, h_now, h') = bind_ok (received answers) _ bytes h in
    let (later, h_later, whole) = bind_ok (all_received calls) _ bytes h' in
    (now, later, h_now, h_later, ok_injective whole)

read_all_frames_from :
    (calls : List (List Recv)) (r : ControlStreamReader) (bytes : List ℕ)
    → all_received calls ≡ ok bytes
    → cut r.buffer ≡ ok ([], r.buffer)
    → read_all_frames calls r >>= what_is_read ≡ cut (r.buffer ++ bytes)
unfolding read_all_frames all_received what_is_read first_then
read_all_frames_from [] r bytes h none_left =
    let nothing : bytes ≡ [] = sym (ok_injective h) in rw (nothing, append-nil) (sym none_left)
read_all_frames_from (answers ∷ calls) r bytes h none_left =
    let (now, later, h_now, h_later, whole) = all_received-cons answers calls bytes h in
    let first =
      read_frames-received answers r ∙ ap (λ m. m >>= λ bytes. cut (r.buffer ++ bytes)) h_now in
    read_all_frames_step calls (r.buffer ++ now) later (read_frames answers r) first
      (λ r' none_left'. read_all_frames_from calls r' later h_later none_left')
    ∙ ap cut (append_assoc r.buffer now later ∙ ap (◌++◌ r.buffer) whole)

-- However the bytes come, as long as no `recv` fails, the calls of the reader return the frames
-- that cutting all the bytes at once returns and leave the same bytes, or fail with the same error.
pub read_all_frames-cut :
    (calls : List (List Recv)) (bytes : List ℕ)
    → all_received calls ≡ ok bytes
    → read_all_frames calls fresh_reader >>= what_is_read ≡ cut bytes
read_all_frames-cut calls bytes h =
    read_all_frames_from calls fresh_reader bytes h (cut-stuck [] (stuck_empty [] (omega arith)))
