-- ===== src/Stream/Reader/Split.antt =====
-- The frames of a buffer that was filled in one go, and in several.
use site_repair_cast.Common.{
  length-append, ◌<◌, ap, ◌∷◌, ◌>>=◌, sym, ◌∙◌, refl, zero, arith, [], some, suc, none, ◌++◌, ◌≤◌,
  err, ok, length, Error, ◌≡◌, Result, ℕ, List,
}
use site_repair_cast.Stream.Reader.{cut_at, next_frame, cut_frames}
use site_repair_cast.Stream.Reader.Cuts.{cuts, fails, stuck, next_frame-Round}

unfoldable pub cut : List ℕ → Result (List (List ℕ) × List ℕ)
unfolding cut_frames next_frame cut_at
cut bytes = cut_frames (length bytes) bytes

unfoldable pub prepend : {A : Type 0} → List A → List A × List ℕ → Result (List A × List ℕ)
prepend frames (more, left) = ok (frames ++ more, left)

cut_frames-stuck : (n : ℕ) (xs : List ℕ) → next_frame xs ≡ ok none → cut_frames n xs ≡ ok ([], xs)
unfolding cut_frames
cut_frames-stuck zero xs h = refl
cut_frames-stuck (suc n) xs h = ground arith

cut_frames-fails :
    (n : ℕ) (xs : List ℕ) (e : Error) → next_frame xs ≡ err e → cut_frames (suc n) xs ≡ err e
unfolding cut_frames
cut_frames-fails n xs e h = ground arith

cut_frames-cuts :
    (n : ℕ) (xs frame rest : List ℕ)
    → next_frame xs ≡ ok (some (frame, rest))
    → cut_frames (suc n) xs ≡ cut_frames n rest >>= prepend (frame ∷ [])
unfolding cut_frames prepend
cut_frames-cuts n xs frame rest h = rw (cut_frames, h)

-- More rounds than there are bytes change nothing.
pub stuck_empty : (xs : List ℕ) → length xs ≤ 0 → next_frame xs ≡ ok none
stuck_empty xs h = elim (next_frame-Round xs []) [
  | stuck stop ↦ stop
  | fails e some_bytes _ _ ↦ absurd (omega arith)
  | cuts frame rest _ _ less ↦ absurd (omega arith)
]

pub cut_frames_enough :
    (n m : ℕ) (xs : List ℕ) → length xs ≤ n → length xs ≤ m → cut_frames n xs ≡ cut_frames m xs
cut_frames_enough zero m xs hn hm =
    let h = stuck_empty xs hn in cut_frames-stuck zero xs h ∙ sym (cut_frames-stuck m xs h)
cut_frames_enough (suc n) zero xs hn hm =
    let h = stuck_empty xs hm in cut_frames-stuck (suc n) xs h ∙ sym (cut_frames-stuck zero xs h)
cut_frames_enough (suc n) (suc m) xs hn hm = elim (next_frame-Round xs []) [
  | stuck h ↦ cut_frames-stuck (suc n) xs h ∙ sym (cut_frames-stuck (suc m) xs h)
  | fails e _ h _ ↦ cut_frames-fails n xs e h ∙ sym (cut_frames-fails m xs e h)
  | cuts frame rest h _ less ↦
      cut_frames-cuts n xs frame rest h
      ∙ ap (λ r. r >>= prepend (frame ∷ []))
          (cut_frames_enough n m rest (omega arith) (omega arith))
      ∙ sym (cut_frames-cuts m xs frame rest h)
]

-- The rounds of `cut`, which has enough of them.
pub cut-cuts :
    (xs frame rest : List ℕ)
    → next_frame xs ≡ ok (some (frame, rest))
    → length rest < length xs
    → cut xs ≡ cut rest >>= prepend (frame ∷ [])
unfolding cut
cut-cuts xs frame rest h less =
    cut_frames_enough (length xs) (suc (length xs)) xs (omega arith) (omega arith)
    ∙ cut_frames-cuts (length xs) xs frame rest h
    ∙ ap (λ r. r >>= prepend (frame ∷ []))
        (cut_frames_enough (length xs) (length rest) rest (omega arith) (omega arith))

pub cut-fails : (xs : List ℕ) (e : Error) → next_frame xs ≡ err e → cut xs ≡ err e
unfolding cut
cut-fails xs e h =
    cut_frames_enough (length xs) (suc (length xs)) xs (omega arith) (omega arith)
    ∙ cut_frames-fails (length xs) xs e h

pub cut-stuck : (xs : List ℕ) → next_frame xs ≡ ok none → cut xs ≡ ok ([], xs)
unfolding cut
cut-stuck xs h = cut_frames-stuck (length xs) xs h

-- The frames of the bytes at hand, then those of what is left with the bytes that come.
unfoldable pub cut_more : List ℕ → List (List ℕ) × List ℕ → Result (List (List ℕ) × List ℕ)
cut_more ys (frames, left) = cut (left ++ ys) >>= prepend frames

pub prepend-nil : (r : Result (List (List ℕ) × List ℕ)) → r ≡ r >>= prepend []
unfolding prepend
prepend-nil (ok (frames, left)) = refl
prepend-nil (err e) = refl

prepend-prepend :
    (r : Result (List (List ℕ) × List ℕ)) (frame : List ℕ) (frames : List (List ℕ))
    → (r >>= prepend frames) >>= prepend (frame ∷ []) ≡ r >>= prepend (frame ∷ frames)
unfolding prepend
prepend-prepend (ok (more, left)) frame frames = refl
prepend-prepend (err e) frame frames = refl

cut_more-prepend :
    (r : Result (List (List ℕ) × List ℕ)) (frame ys : List ℕ)
    → (r >>= cut_more ys) >>= prepend (frame ∷ []) ≡ (r >>= prepend (frame ∷ [])) >>= cut_more ys
unfolding prepend cut_more
cut_more-prepend (err e) frame ys = refl
cut_more-prepend (ok (frames, left)) frame ys = prepend-prepend (cut (left ++ ys)) frame frames

-- The two sides after a round that cuts a frame off.
cut-append_step :
    (xs ys frame rest : List ℕ)
    → next_frame xs ≡ ok (some (frame, rest))
    → next_frame (xs ++ ys) ≡ ok (some (frame, rest ++ ys))
    → length rest < length xs
    → cut (rest ++ ys) ≡ cut rest >>= cut_more ys
    → cut (xs ++ ys) ≡ cut xs >>= cut_more ys
cut-append_step xs ys frame rest h more less same =
    cut-cuts (xs ++ ys) frame (rest ++ ys) more
      (omega (arith, length-append xs ys, length-append rest ys))
    ∙ ap (λ r. r >>= prepend (frame ∷ [])) same
    ∙ cut_more-prepend (cut rest) frame ys
    ∙ ap (λ r. r >>= cut_more ys) (sym (cut-cuts xs frame rest h less))

cut-append_ended :
    (xs ys : List ℕ) → next_frame xs ≡ ok none → cut (xs ++ ys) ≡ cut xs >>= cut_more ys
unfolding cut_more
cut-append_ended xs ys h =
    prepend-nil (cut (xs ++ ys)) ∙ ap (λ r. r >>= cut_more ys) (sym (cut-stuck xs h))

cut-append_within :
    (n : ℕ) (xs ys : List ℕ) → length xs ≤ n → cut (xs ++ ys) ≡ cut xs >>= cut_more ys
cut-append_within zero xs ys hn = cut-append_ended xs ys (stuck_empty xs hn)
cut-append_within (suc n) xs ys hn = elim (next_frame-Round xs ys) [
  | stuck h ↦ cut-append_ended xs ys h
  | fails e _ h more ↦
      cut-fails (xs ++ ys) e more ∙ ap (λ r. r >>= cut_more ys) (sym (cut-fails xs e h))
  | cuts frame rest h more less ↦
      cut-append_step xs ys frame rest h more less (cut-append_within n rest ys (omega arith))
]

pub cut-append : (xs ys : List ℕ) → cut (xs ++ ys) ≡ cut xs >>= cut_more ys
cut-append xs ys = cut-append_within (length xs) xs ys (omega arith)
