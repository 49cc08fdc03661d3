-- ===== src/Proxy/Status/Accepts.antt =====
-- `validate_missing_bitmap` on the bitmap that `make_missing_bitmap` makes.
use Prim.Native.Nat.{bit_and}
use native.Mathlib.Decide.{ℕ_discrete}
use site_repair_cast.Common.{
  if◌then◌else◌, ap, ◌∙◌, ◌-◌, ◌%◌, ◌==◌, ◌/◌, ◌≢◌, get_or, arith, ◌*◌, ◌≤◌, ◌^◌, ◌≡◌, ◌+◌, ◌<◌,
  length, ℕ, List, zero, suc, ok, true, false,
}
use site_repair_cast.Protocol.Bitmap.{bitmap_test, test_bit, bitmap_size_for_blocks}
use site_repair_cast.Protocol.Bitmap.Bytes.{unused_bits, unused_mask}
use site_repair_cast.Protocol.Bitmap.Laws.{get_or-lt, bitmap_test-has_bit, has_bit}
use site_repair_cast.Protocol.Control.Receiver.{missing}
use site_repair_cast.Protocol.Section.{u32, section_block_count, section_first_block}
use site_repair_cast.Proxy.Status.{stray_bits, count_loop, validate_missing_bitmap}
use site_repair_cast.Receiver.Missing.{make_missing_bitmap}
use site_repair_cast.Receiver.Missing.Laws.{make_missing_bitmap_lem, missing_from, Marks}
use site_repair_cast.Receiver.State.{TransferState}

module _ (received : List ℕ) (first count : ℕ) (bitmap : List ℕ)
    (m : Marks received first count bitmap) where
  count_loop-missing :
      (left i counted : ℕ)
      → i + left ≤ count
      → count ≤ 8 * length bitmap
      → counted + left < 2 ^ 32
      → count_loop left bitmap i counted ≡ ok (counted + missing_from received (first + i) left)
  unfolding count_loop
  count_loop-missing zero i counted h size small = ground arith
  count_loop-missing (suc left) i counted h size small =
      let next : first + (i + 1) ≡ first + i + 1 = omega arith in
      let mark : has_bit bitmap i ≡ (get_or received (first + i) 0 == 0) =
        ground (arith, m.exact i) in
      let rest =
        count_loop-missing left (i + 1)
          (if get_or received (first + i) 0 == 0 then u32 (counted + 1) else counted) (omega arith)
          size (ground arith) in
      rw (bitmap_test-has_bit bitmap i (omega arith), mark)
        (rest ∙ ap ok (ground (arith, ap (λ (k : ℕ). missing_from received k left) next)))

  no_stray_bits : length bitmap ≡ bitmap_size_for_blocks count → stray_bits bitmap count ≡ false
  unfolding bitmap_size_for_blocks
  no_stray_bits size = elim (ℕ_discrete (count % 8) 0) [
    | yes whole ↦ ground arith
    | no part ↦
        let last = length bitmap - 1 in
        let clear : bit_and (get_or bitmap last 0) (unused_mask (count % 8)) ≡ 0 =
          unused_bits (get_or bitmap last 0) (count % 8) (get_or-lt bitmap last m.bytes)
            (omega arith) (λ j hj beyond. bit_off last j hj (omega arith)) in
        ground (arith, clear)
  ]
    where
      bit_off :
          (last j : ℕ) → j < 8 → count ≤ 8 * last + j → test_bit (get_or bitmap last 0) j ≡ false
      bit_off last j hj beyond =
          let byte : (8 * last + j) / 8 ≡ last = omega arith in
          let bit : (8 * last + j) % 8 ≡ j = omega arith in
          let off : has_bit bitmap (8 * last + j) ≡ false =
            ground (arith, m.exact (8 * last + j)) in
          rw (byte, bit) at off

-- For a section of the file of fewer than 2^32 blocks with a missing block, the bitmap and the
-- count that the receiver makes pass the proxy's check, and the proxy reads from the bitmap of each
-- block of the section whether it is missing.
pub report-accepted :
    (s : TransferState) (section_id round_id first count : ℕ)
    → count < 2 ^ 32
    → section_first_block section_id s.meta.section_block_count ≡ ok first
    → section_block_count s.meta.total_blocks section_id s.meta.section_block_count ≡ ok count
    → missing_from s.received first count ≢ 0
    → (bitmap : List ℕ) × (make_missing_bitmap s section_id
        ≡ ok (bitmap, missing_from s.received first count))
      × (validate_missing_bitmap
            (record {
              transfer_id = s.meta.common.transfer_id;
              section_id = section_id;
              round_id = round_id;
              status = missing;
              missing_count = missing_from s.received first count;
              missing_bitmap = bitmap;
            })
            count
          ≡ ok true)
      × ((i : ℕ) → i < count → bitmap_test bitmap i ≡ ok (get_or s.received (first + i) 0 == 0))
unfolding validate_missing_bitmap bitmap_size_for_blocks
report-accepted s section_id round_id first count small e₁ e₂ some_missing =
    let (bitmap, made, size, marks) =
      make_missing_bitmap_lem s section_id first count small e₁ e₂ in
    let start : first + 0 ≡ first = omega arith in
    let counted : count_loop count bitmap 0 0 ≡ ok (missing_from s.received first count) =
      count_loop-missing s.received first count bitmap marks count 0 0 (omega arith) (omega arith)
        (omega arith)
      ∙ ap ok (omega (arith, ap (λ (k : ℕ). missing_from s.received k count) start)) in
    (
      bitmap,
      made,
      ground (arith, size, counted, no_stray_bits s.received first count bitmap marks size),
      (λ i inside.
          bitmap_test-has_bit bitmap i (omega arith) ∙ ap ok (ground (arith, marks.exact i))),
    )
