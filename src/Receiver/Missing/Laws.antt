-- ===== src/Receiver/Missing/Laws.antt =====
-- `make_missing_bitmap` against the reception map.
use native.Mathlib.Decide.{ℕ_discrete}
use site_repair_cast.Common.{
  length-replicate, replicate, refl, ◌∙◌, ap, ◌^◌, length, ◌*◌, ◌<◌, ltb, ◌≡◌, ◌+◌, ◌==◌, arith,
  get_or, ◌≤◌, if◌then◌else◌, ℕ, List, zero, suc, ok, false,
}
use site_repair_cast.Protocol.Bitmap.{bitmap_size_for_blocks}
use site_repair_cast.Protocol.Bitmap.Laws.{
  has_bit-replicate, replicate-AreBytes, has_bit-put_bit, put_bit-AreBytes, length-put_bit,
  bitmap_set-put_bit, put_bit, has_bit, AreBytes,
}
use site_repair_cast.Protocol.Section.{section_block_count, section_first_block}
use site_repair_cast.Receiver.Missing.{make_missing_bitmap, mark_loop, mark_missing}
use site_repair_cast.Receiver.State.{TransferState}

-- How many of the `n` blocks from `first` on are missing.
abbrev pub missing_from : List ℕ → ℕ → ℕ → ℕ
missing_from received first zero = 0
missing_from received first (suc n) =
    (if get_or received first 0 == 0 then 1 else 0) + missing_from received (first + 1) n

pub missing_from-le : (received : List ℕ) (first n : ℕ) → missing_from received first n ≤ n
missing_from-le received first zero = omega arith
missing_from-le received first (suc n) = ground (arith, missing_from-le received (first + 1) n)

-- Below `upto` the bitmap marks what is missing, and from there on nothing.
pub record Marks (received : List ℕ) (first upto : ℕ) (bitmap : List ℕ) : Type 0 where
  pub bytes : AreBytes bitmap
  pub exact :
      (j : ℕ)
      → has_bit bitmap j ≡ (if ltb j upto then get_or received (first + j) 0 == 0 else false)

mark_missing-Marks :
    (received : List ℕ) (first i : ℕ) (bitmap : List ℕ) (count : ℕ)
    → i < 8 * length bitmap
    → count + 1 < 2 ^ 32
    → Marks received first i bitmap
    → (bitmap' : List ℕ) × (mark_missing received first i (bitmap, count)
        ≡ ok (bitmap', count + (if get_or received (first + i) 0 == 0 then 1 else 0)))
      × (length bitmap' ≡ length bitmap)
      × Marks received first (i + 1) bitmap'
unfolding mark_missing
mark_missing-Marks received first i bitmap count inside small m =
    elim (ℕ_discrete (get_or received (first + i) 0) 0) [
      | yes missing ↦ (
        put_bit bitmap i,
        ground (arith, bitmap_set-put_bit bitmap i inside),
        length-put_bit bitmap i,
        record {
          bytes = put_bit-AreBytes bitmap i m.bytes;
          exact = λ j. ground (
            arith,
            has_bit-put_bit bitmap i j m.bytes,
            m.exact j,
            ap (λ (k : ℕ). get_or received (first + k) 0) {x = i} {y = j},
          );
        },
      )
      | no present ↦ (
        bitmap,
        ground arith,
        refl,
        record { bytes = m.bytes; exact = λ j. ground (arith, m.exact j) },
      )
    ]

mark_loop-Marks :
    (left : ℕ) (received : List ℕ) (first i : ℕ) (bitmap : List ℕ) (count : ℕ)
    → i + left ≤ 8 * length bitmap
    → count + left < 2 ^ 32
    → Marks received first i bitmap
    → (bitmap' : List ℕ) × (mark_loop left received first i (bitmap, count)
        ≡ ok (bitmap', count + missing_from received (first + i) left))
      × (length bitmap' ≡ length bitmap)
      × Marks received first (i + left) bitmap'
unfolding mark_loop
mark_loop-Marks zero received first i bitmap count inside small m =
    (bitmap, ground arith, refl, record { bytes = m.bytes; exact = λ j. ground (arith, m.exact j) })
mark_loop-Marks (suc left) received first i bitmap count inside small m =
    let (b₁, e₁, l₁, m₁) =
      mark_missing-Marks received first i bitmap count (omega arith) (omega arith) m in
    let (b₂, e₂, l₂, m₂) =
      mark_loop-Marks left received first (i + 1) b₁
        (count + (if get_or received (first + i) 0 == 0 then 1 else 0)) (omega arith) (ground arith)
        m₁ in
    let next : first + (i + 1) ≡ first + i + 1 = omega arith in
    let total : count
          + (if get_or received (first + i) 0 == 0 then 1 else 0)
          + missing_from received (first + (i + 1)) left
        ≡ count + missing_from received (first + i) (suc left) =
      omega (arith, ap (λ (k : ℕ). missing_from received k left) next) in
    (
      b₂,
      rw e₁ (e₂ ∙ ap (λ (n : ℕ). ok (b₂, n)) total),
      l₂ ∙ l₁,
      record { bytes = m₂.bytes; exact = λ j. ground (arith, m₂.exact j) },
    )

blank-Marks : (received : List ℕ) (first n : ℕ) → Marks received first 0 (replicate n 0)
blank-Marks received first n = record {
  bytes = replicate-AreBytes n;
  exact = λ j. ground (arith, has_bit-replicate n j);
}

-- For a section of the file of fewer than 2^32 blocks the bitmap is made without an error, has the
-- bytes that the section needs, marks exactly the section's missing blocks and no bit beyond them,
-- and the count is the number of missing blocks.
pub make_missing_bitmap_lem :
    (s : TransferState) (section_id first count : ℕ)
    → count < 2 ^ 32
    → section_first_block section_id s.meta.section_block_count ≡ ok first
    → section_block_count s.meta.total_blocks section_id s.meta.section_block_count ≡ ok count
    → (bitmap : List ℕ) × (make_missing_bitmap s section_id
        ≡ ok (bitmap, missing_from s.received first count))
      × (length bitmap ≡ bitmap_size_for_blocks count)
      × Marks s.received first count bitmap
unfolding make_missing_bitmap bitmap_size_for_blocks
make_missing_bitmap_lem s section_id first count small e₁ e₂ =
    let blank : List ℕ = replicate (bitmap_size_for_blocks count) 0 in
    let start : first + 0 ≡ first = omega arith in
    let total : 0 + missing_from s.received (first + 0) count
        ≡ missing_from s.received first count =
      omega (arith, ap (λ (k : ℕ). missing_from s.received k count) start) in
    let none_yet : 0 + count ≡ count = omega arith in
    let (bitmap, run, size, marks) =
      mark_loop-Marks count s.received first 0 blank 0
        (omega (arith, length-replicate (bitmap_size_for_blocks count) zero)) (omega arith)
        (blank-Marks s.received first _) in
    (
      bitmap,
      rw (e₁, e₂) (run ∙ ap (λ (n : ℕ). ok (bitmap, n)) total),
      size ∙ length-replicate (bitmap_size_for_blocks count) zero,
      rw none_yet at marks,
    )
