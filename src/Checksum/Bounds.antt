-- ===== src/Checksum/Bounds.antt =====
-- The range of a CRC-32.
use Prim.Native.Nat.{digits, differ, bit_xor, bit_xor-bitwise}
use mathlib.Core.Path.{subst}
use native.Mathlib.Decide.{ℕ_discrete}
use site_repair_cast.Checksum.{crc32, crc_loop, crc_table}
use site_repair_cast.Common.{
  ◌&&◌, zero, [], ltb, sym, ◌/◌, arith, get_or, refl, ◌∷◌, suc, true, ◌^◌, ◌≤◌, ◌≡◌, Bool, ◌<◌, ◌%◌,
  List, ℕ,
}

two_digits : (x y : ℕ) → differ (x % 2) (y % 2) ≤ 1
two_digits x y = elim (ℕ_discrete (x % 2) 0) [
  | yes even ↦ rw even (omega arith)
  | no odd ↦
      let one : x % 2 ≡ 1 = omega arith in
      elim (ℕ_discrete (y % 2) 0) [
        | yes even' ↦ rw (one, even') (omega arith)
        | no odd' ↦ let one' : y % 2 ≡ 1 = omega arith in rw (one, one') (omega arith)
      ]
]

digits-bound : (n w a b : ℕ) → a < 2 ^ w → b < 2 ^ w → digits (λ b. b) differ n a b < 2 ^ w
digits-bound zero w a b ha hb = hb
digits-bound (suc n) w zero b ha hb = hb
digits-bound (suc n) zero (suc a) b ha hb = absurd (omega arith)
digits-bound (suc n) (suc w) (suc a) b ha hb =
    omega (
      arith,
      digits-bound n w (suc a / 2) (b / 2) (omega arith) (omega arith),
      two_digits (suc a) b,
    )

pub bit_xor-bound : (w a b : ℕ) → a < 2 ^ w → b < 2 ^ w → bit_xor a b < 2 ^ w
bit_xor-bound w a b ha hb =
    subst (λ v. v < 2 ^ w) (sym (λ i. bit_xor-bitwise a b i)) (digits-bound a w a b ha hb)

all_words : List ℕ → Bool
all_words [] = true
all_words (x ∷ xs) = ltb x (2 ^ 32) && all_words xs

table_words : all_words crc_table ≡ true
unfolding all_words crc_table
table_words = refl

get_or-bound : (xs : List ℕ) (i : ℕ) → all_words xs ≡ true → get_or xs i 0 < 2 ^ 32
unfolding all_words
get_or-bound [] i h = omega arith
get_or-bound (x ∷ xs) zero h = ground arith
get_or-bound (x ∷ xs) (suc i) h = get_or-bound xs i (ground arith)

crc_loop-bound :
    (bytes : List ℕ) (value : ℕ) → value < 2 ^ 32 → crc_loop crc_table bytes value < 2 ^ 32
unfolding crc_loop
crc_loop-bound [] value h = h
crc_loop-bound (b ∷ bs) value h =
    crc_loop-bound bs _ (bit_xor-bound 32 _ _ (get_or-bound crc_table _ table_words) (omega arith))

pub crc32-bound : (bytes : List ℕ) → crc32 bytes < 2 ^ 32
unfolding crc32
crc32-bound bytes =
    bit_xor-bound 32 _ 0xffff_ffff (crc_loop-bound bytes 0xffff_ffff (omega arith)) (omega arith)
