-- ===== src/Stream/Reader/Cuts.antt =====
-- One round over the buffer, and what more bytes behind the buffer change of it.
use site_repair_cast.Common.{
  drop-append_short, take-append_short, length-append, ◌∙◌, ap, truncated_packet, length-drop, take,
  drop, invalid_frame_size, ◌<◌, ltb, length, ◌||◌, some, ◌==◌, ◌++◌, Bool-cases, err, inr, Error,
  arith, none, inl, ok, ◌≡◌, ℕ, List,
}
use site_repair_cast.Protocol.Bytes.{get_u32}
use site_repair_cast.Protocol.Bytes.Laws.{get_u32-cases}
use site_repair_cast.Protocol.Control.Header.{control_frame_limit}
use site_repair_cast.Stream.Reader.{cut_at, next_frame}

-- What a round does, and what it does with more bytes behind.
pub data Round : List ℕ → List ℕ → Type 0 where
  stuck : {xs ys : List ℕ} → next_frame xs ≡ ok none → Round xs ys
  fails :
      {xs ys : List ℕ} (e : Error)
      → 0 < length xs
      → next_frame xs ≡ err e
      → next_frame (xs ++ ys) ≡ err e
      → Round xs ys
  cuts :
      {xs ys : List ℕ} (frame rest : List ℕ)
      → next_frame xs ≡ ok (some (frame, rest))
      → next_frame (xs ++ ys) ≡ ok (some (frame, rest ++ ys))
      → length rest < length xs
      → Round xs ys

next_frame_short : (xs : List ℕ) → get_u32 xs ≡ err truncated_packet → next_frame xs ≡ ok none
unfolding next_frame
next_frame_short xs h = ground arith

pub next_frame-cut_at :
    (xs : List ℕ) (n : ℕ) (rest : List ℕ)
    → get_u32 xs ≡ ok (n, rest)
    → next_frame xs ≡ cut_at n rest
unfolding next_frame
next_frame-cut_at xs n rest h =
    ap (λ r. elim r [ err _ ↦ ok none | ok (size, rest) ↦ cut_at size rest ]) h

-- The same with the bytes behind the size.
cut_at-Round :
    (xs ys : List ℕ) (n : ℕ) (rest : List ℕ)
    → next_frame xs ≡ cut_at n rest
    → next_frame (xs ++ ys) ≡ cut_at n (rest ++ ys)
    → length rest < length xs
    → Round xs ys
unfolding cut_at
cut_at-Round xs ys n rest one more less = elim (Bool-cases (n == 0 || ltb control_frame_limit n)) [
  | inl bad ↦ fails invalid_frame_size (omega arith) (one ∙ rw bad) (more ∙ rw bad)
  | inr good ↦ elim (Bool-cases (ltb (length rest) n)) [
    | inl short ↦ stuck (one ∙ rw (good, short))
    | inr long ↦
        cuts (take n rest) (drop n rest) (one ∙ rw (good, long))
          (more
            ∙ ground (
              arith,
              good,
              length-append rest ys,
              take-append_short n rest ys,
              drop-append_short n rest ys,
            ))
          (ground (arith, length-drop n rest))
  ]
]

pub next_frame-Round : (xs ys : List ℕ) → Round xs ys
next_frame-Round xs ys = elim (get_u32-cases xs) [
  | inl (h, _) ↦ stuck (next_frame_short xs h)
  | inr (four, n, more, h) ↦
      cut_at-Round xs ys n (drop 4 xs) (next_frame-cut_at xs n (drop 4 xs) h)
        (next_frame-cut_at (xs ++ ys) n (drop 4 xs ++ ys) (more ys))
        (ground (arith, length-drop 4 xs))
]
