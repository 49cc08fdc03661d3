-- ===== src/FileIo/Laws.antt =====
-- Slices of a file, and writes into it.
use site_repair_cast.Common.{
  ℕ, zero, suc, ◌+◌, ◌-◌, ◌<◌, ◌≤◌, ◌≡◌, refl, ap, ◌⊎◌, ◌∙◌, List, length, get_or, arith,
}
use site_repair_cast.FileIo.{Contents, slice, write_all_at}

pub length-slice : (file : Contents) (offset n : ℕ) → length (slice file offset n) ≡ n
length-slice file offset zero = refl
length-slice file offset (suc n) = ap suc (length-slice file (offset + 1) n)

pub get_or-slice :
    (file : Contents) (offset n k : ℕ)
    → k < n
    → get_or (slice file offset n) k 0 ≡ file (offset + k)
get_or-slice file offset zero k h = absurd (omega arith)
get_or-slice file offset (suc n) zero h = ap file (omega arith)
get_or-slice file offset (suc n) (suc k) h =
    get_or-slice file (offset + 1) n k (omega arith) ∙ ap file (omega arith)

-- A write of a slice of `source` makes the file agree with `source` there.
pub write_all_at_inside :
    (file source : Contents) (offset n i : ℕ)
    → offset ≤ i
    → i < offset + n
    → write_all_at file (slice source offset n) offset i ≡ source i
unfolding write_all_at
write_all_at_inside file source offset n i lo hi =
    let there : offset + (i - offset) ≡ i = omega arith in
    ground (
      arith,
      length-slice source offset n,
      get_or-slice source offset n (i - offset),
      ap source there,
    )

-- And leaves the rest as it was.
pub write_all_at_outside :
    (file : Contents) (payload : List ℕ) (offset i : ℕ)
    → (i < offset) ⊎ (offset + length payload ≤ i)
    → write_all_at file payload offset i ≡ file i
unfolding write_all_at
write_all_at_outside file payload offset i h = ground arith
