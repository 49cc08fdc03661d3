-- ===== src/Proxy/Status.antt =====
-- `validate_missing_bitmap`: the check of a receiver's section report.
pub mod Accepts
use Prim.Native.Nat.{bit_and}
use site_repair_cast.Common.{
  ◌^◌, ◌||◌, ◌*◌, ◌&&◌, ◌==◌, ◌%◌, ◌-◌, ◌+◌, if◌then◌else◌, not, length, Bool, get_or, Result, List,
  ℕ, [], ◌∷◌, zero, suc, ok, err, ◌>>=◌, true, false,
}
use site_repair_cast.Protocol.Bitmap.{bitmap_size_for_blocks, bitmap_test}
use site_repair_cast.Protocol.Control.Receiver.{
  section_status_code, SectionStatusMessage, SectionStatusCode,
}
use site_repair_cast.Protocol.Section.{u32}

-- The rounds that are left, from `local_block` on.
count_loop : ℕ → List ℕ → ℕ → ℕ → Result ℕ
count_loop zero bitmap local_block counted = ok counted
count_loop (suc left) bitmap local_block counted = do
  marked ← bitmap_test bitmap local_block
  count_loop left bitmap (local_block + 1) (if marked then u32 (counted + 1) else counted)

-- `missing_bitmap.back()`.
abbrev last_byte : List ℕ → ℕ
last_byte bitmap = get_or bitmap (length bitmap - 1) 0

-- A bit of the last byte that stands for no block.
abbrev stray_bits : List ℕ → ℕ → Bool
stray_bits bitmap section_blocks =
    not (section_blocks % 8 == 0)
    && not (length bitmap == 0)
    && not (bit_and (last_byte bitmap) (0xff * 2 ^ (section_blocks % 8) % 256) == 0)

abbrev pub is_missing : SectionStatusCode → Bool
is_missing status = section_status_code status == 1

unfoldable pub validate_missing_bitmap : SectionStatusMessage → ℕ → Result Bool
unfolding count_loop
validate_missing_bitmap m section_blocks =
    if is_missing m.status
    then if not (length m.missing_bitmap == bitmap_size_for_blocks section_blocks)
        || m.missing_count == 0
      then ok false
      else (do
        counted ← count_loop section_blocks m.missing_bitmap 0 0
        ok (not (stray_bits m.missing_bitmap section_blocks) && counted == m.missing_count))
    else ok (m.missing_count == 0 && length m.missing_bitmap == 0)
