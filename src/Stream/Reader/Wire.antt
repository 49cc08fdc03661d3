-- ===== src/Stream/Reader/Wire.antt =====
-- The bytes of sent frames, cut again.
use mathlib.Core.List.{append-nil, append_assoc}
use mathlib.Core.Path.{subst}
use site_repair_cast.Common.{
  inr, invalid_frame_size, refl, err, drop-append, Result, take-append, bind_ok, inl, ◌^◌,
  length-append, Bool-cases, ◌%◌, arith, ◌∙◌, sym, some, ok_injective, ap, false, ◌∷◌, [], ◌++◌,
  ltb, ◌||◌, ok, ◌==◌, ◌≡◌, length, ℕ, List, ◌>>=◌,
}
use site_repair_cast.Protocol.Bytes.{put_u32}
use site_repair_cast.Protocol.Bytes.Laws.{get_u32-put_u32, length-put_u32}
use site_repair_cast.Protocol.Control.Header.{control_frame_limit}
use site_repair_cast.Stream.Frames.{wire_of, frame_bytes}
use site_repair_cast.Stream.Reader.{next_frame, fresh_reader, read_all_frames, Recv, cut_at}
use site_repair_cast.Stream.Reader.Calls.{read_all_frames-cut, what_is_read, all_received}
use site_repair_cast.Stream.Reader.Cuts.{next_frame-cut_at}
use site_repair_cast.Stream.Reader.Split.{cut-cuts, stuck_empty, cut-stuck, cut, prepend}

cut_at_whole :
    (frame rest : List ℕ)
    → (length frame == 0 || ltb control_frame_limit (length frame)) ≡ false
    → cut_at (length frame) (frame ++ rest) ≡ ok (some (frame, rest))
unfolding cut_at
cut_at_whole frame rest good =
    let fits : ltb (length (frame ++ rest)) (length frame) ≡ false =
      ground (arith, length-append frame rest) in
    rw (
      good,
      fits,
      take-append frame rest (length frame) refl,
      drop-append frame rest (length frame) refl,
    )

next_frame_whole :
    (frame rest : List ℕ)
    → (length frame == 0 || ltb control_frame_limit (length frame)) ≡ false
    → next_frame (put_u32 (length frame) ++ (frame ++ rest)) ≡ ok (some (frame, rest))
next_frame_whole frame rest good =
    let size : length frame % 2 ^ 32 ≡ length frame = ground arith in
    next_frame-cut_at _ _ _ (get_u32-put_u32 (length frame) (frame ++ rest))
    ∙ ap (λ n. cut_at n (frame ++ rest)) size
    ∙ cut_at_whole frame rest good

frame_bytes-ok :
    (frame bytes : List ℕ)
    → frame_bytes frame ≡ ok bytes
    → (length frame == 0 || ltb control_frame_limit (length frame)) ≡ false
      × put_u32 (length frame) ++ frame ≡ bytes
unfolding frame_bytes
frame_bytes-ok frame bytes h =
    elim (Bool-cases (length frame == 0 || ltb control_frame_limit (length frame))) [
      | inl bad ↦ absurd (
          let both : ◌≡◌ {A = Result (List ℕ)} (err invalid_frame_size) (ok bytes) =
            (rw bad at h) in
          cc)
      | inr good ↦
          let both : ◌≡◌ {A = Result (List ℕ)} (ok (put_u32 (length frame) ++ (frame ++ [])))
              (ok bytes) =
            rw good at h in
          (good, ap (λ f. put_u32 (length frame) ++ f) (sym (append-nil frame)) ∙ ok_injective both)
    ]

cut-frame_bytes :
    (frame bytes rest : List ℕ)
    → frame_bytes frame ≡ ok bytes
    → cut (bytes ++ rest) ≡ cut rest >>= prepend (frame ∷ [])
cut-frame_bytes frame bytes rest h =
    let (good, whole) = frame_bytes-ok frame bytes h in
    ap (λ b. cut (b ++ rest)) (sym whole)
    ∙ ap cut (append_assoc (put_u32 (length frame)) frame rest)
    ∙ cut-cuts (put_u32 (length frame) ++ (frame ++ rest)) frame rest
        (next_frame_whole frame rest good)
        (omega (
          arith,
          length-append (put_u32 (length frame)) (frame ++ rest),
          length-append frame rest,
          length-put_u32 (length frame),
        ))

cut-wire_of :
    (frames : List (List ℕ)) (bytes : List ℕ)
    → wire_of frames ≡ ok bytes
    → cut bytes ≡ ok (frames, [])
unfolding wire_of prepend
cut-wire_of [] bytes h =
    subst (λ b. cut b ≡ ok ([], [])) (ok_injective h) (cut-stuck [] (stuck_empty [] (omega arith)))
cut-wire_of (frame ∷ frames) bytes h =
    let (first, h_first, h') = bind_ok (frame_bytes frame) _ bytes h in
    let (rest, h_rest, whole) = bind_ok (wire_of frames) _ bytes h' in
    ap cut (sym (ok_injective whole))
    ∙ cut-frame_bytes frame first rest h_first
    ∙ ap (λ m. m >>= prepend (frame ∷ [])) (cut-wire_of frames rest h_rest)

-- If the bytes that the calls of the reader receive are those of frames sent with
-- send_control_frame, the calls return these frames and leave no byte in the buffer, in whatever
-- chunks the bytes come.
pub read_all_frames-wire_of :
    (calls : List (List Recv)) (frames : List (List ℕ)) (bytes : List ℕ)
    → all_received calls ≡ ok bytes
    → wire_of frames ≡ ok bytes
    → read_all_frames calls fresh_reader >>= what_is_read ≡ ok (frames, [])
read_all_frames-wire_of calls frames bytes h sent =
    read_all_frames-cut calls bytes h ∙ cut-wire_of frames bytes sent
