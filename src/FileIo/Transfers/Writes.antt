-- ===== src/FileIo/Transfers/Writes.antt =====
-- The loop of `write_all_at` over `pwrite` with short transfers.
use site_repair_cast.Common.{
  false, ◌==◌, inr, inl, ltb, Bool-cases, Result, Option, get_or, ◌<◌, refl, drop, length, take,
  ◌-◌, min, zero, suc, ◌∙◌, ok, arith, some, ap, ◌≡◌, [], All, ◌∷◌, ◌+◌, ◌≤◌, ℕ, List, length-take,
  length-drop,
}
use site_repair_cast.FileIo.{write_all_at, Contents}
use site_repair_cast.FileIo.Transfers.{write_loop, failed, interrupted, moved, Answer}
use site_repair_cast.FileIo.Transfers.Reads.{Moves, moves}

get_or-take : (n k : ℕ) (xs : List ℕ) → k < n → get_or (take n xs) k 0 ≡ get_or xs k 0
get_or-take zero k xs h = absurd (omega arith)
get_or-take (suc n) k [] h = refl
get_or-take (suc n) zero (x ∷ xs) h = refl
get_or-take (suc n) (suc k) (x ∷ xs) h = get_or-take n k xs (omega arith)

get_or-drop : (n k : ℕ) (xs : List ℕ) → get_or (drop n xs) k 0 ≡ get_or xs (n + k) 0
get_or-drop zero k xs = ap (λ (j : ℕ). get_or xs j 0) (omega arith)
get_or-drop (suc n) k [] = refl
get_or-drop (suc n) k (x ∷ xs) =
    get_or-drop n k xs ∙ ap (λ (j : ℕ). get_or (x ∷ xs) j 0) {x = suc (n + k)} (omega arith)

-- The first bytes of `payload` have been written.
Behind : List ℕ → ℕ → ℕ → Contents → Contents → Type 0
Behind payload offset written before file =
    (i : ℕ) → file i ≡ write_all_at before (take written payload) offset i

write_step :
    (payload : List ℕ) (offset written count : ℕ) (before file : Contents)
    → written + count ≤ length payload
    → Behind payload offset written before file
    → Behind payload offset
        (written + count)
        before
        (write_all_at file (take count (drop written payload)) (offset + written))
unfolding Behind write_all_at
write_step payload offset written count before file fits behind i =
    let size : length (take count (drop written payload)) ≡ count =
      length-take count (drop written payload) (omega (arith, length-drop written payload)) in
    let all : length (take (written + count) payload) ≡ written + count =
      length-take (written + count) payload fits in
    let first : length (take written payload) ≡ written =
      length-take written payload (omega arith) in
    rw (size, all)
      (ground (
        arith,
        first,
        behind i,
        get_or-take count (i - (offset + written)) (drop written payload),
        get_or-drop written (i - (offset + written)) payload,
        get_or-take (written + count) (i - offset) payload,
        get_or-take written (i - offset) payload,
        ap (λ (j : ℕ). get_or payload j 0) {x = written + (i - (offset + written))}
            {y = i - offset},
      ))

take-all : (n : ℕ) (xs : List ℕ) → length xs ≤ n → take n xs ≡ xs
take-all zero [] h = refl
take-all zero (x ∷ xs) h = absurd (omega arith)
take-all (suc n) [] h = refl
take-all (suc n) (x ∷ xs) h = ap (◌∷◌ x) (take-all n xs (omega arith))

-- The loop ends with a file that has the whole payload.
Wrote : List ℕ → ℕ → Contents → Option (Result Contents) → Type 0
Wrote payload offset before r =
    (file : Contents) × (r ≡ some (ok file))
    × ((i : ℕ) → file i ≡ write_all_at before payload offset i)

all_written :
    (payload : List ℕ) (offset written : ℕ) (before file : Contents)
    → length payload ≤ written
    → Behind payload offset written before file
    → Wrote payload offset before (some (ok file))
unfolding Behind Wrote
all_written payload offset written before file full behind = (
  file,
  refl,
  λ i.
      behind i
      ∙ ap (λ (p : List ℕ). write_all_at before p offset i) (take-all written payload full),
)

write_loop-Wrote :
    (payload : List ℕ) (offset written : ℕ) (before file : Contents) (answers : List Answer)
    → written ≤ length payload
    → All Moves answers
    → length payload ≤ written + moves answers
    → Behind payload offset written before file
    → Wrote payload offset before (write_loop payload offset written file answers)
unfolding write_loop
write_loop-Wrote payload offset written before file [] low each enough behind =
    ground (arith, all_written payload offset written before file (omega (arith, enough)) behind)
write_loop-Wrote payload offset written before file (failed ∷ answers) low each enough behind =
    absurd each.0
write_loop-Wrote payload offset written before file (interrupted ∷ answers) low each enough behind =
    elim (Bool-cases (ltb written (length payload))) [
      | inl more ↦ rw more (
          write_loop-Wrote payload offset written before file answers low each.1
            (omega (arith, enough)) behind)
      | inr full ↦
          rw full (all_written payload offset written before file (ground (arith, full)) behind)
    ]
write_loop-Wrote payload offset written before file (moved n ∷ answers) low each enough behind =
    let count = min n (length payload - written) in
    elim (Bool-cases (ltb written (length payload))) [
      | inl more ↦
          let some_bytes : (count == 0) ≡ false = ground (arith, more, each.0) in
          rw (more, some_bytes)
            (write_loop-Wrote payload offset (written + count) before
              (write_all_at file (take count (drop written payload)) (offset + written)) answers
              (omega (arith, low)) each.1 (ground (arith, enough, some_bytes))
              (write_step payload offset written count before file (omega (arith, low)) behind))
      | inr full ↦
          rw full (all_written payload offset written before file (ground (arith, full)) behind)
    ]

nothing_written :
    (payload : List ℕ) (offset : ℕ) (file : Contents) → Behind payload offset 0 file file
unfolding Behind write_all_at
nothing_written payload offset file i = ground arith

-- If no answer of the system is an error or a write of nothing and as many of them move bytes as
-- the payload has, the loop that writes a block ends without an error, and the file has the payload
-- at its offset and is otherwise unchanged.
pub write_loop_lem :
    (payload : List ℕ) (offset : ℕ) (file : Contents) (answers : List Answer)
    → All Moves answers
    → length payload ≤ moves answers
    → (file' : Contents) × (write_loop payload offset 0 file answers ≡ some (ok file'))
      × ((i : ℕ) → file' i ≡ write_all_at file payload offset i)
unfolding Wrote
write_loop_lem payload offset file answers each enough =
    write_loop-Wrote payload offset 0 file file answers (omega arith) each (omega (arith, enough))
      (nothing_written payload offset file)
