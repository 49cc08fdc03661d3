-- ===== src/Protocol/Bitmap/Bytes.antt =====
-- The bits of one byte, by evaluation of all 256 of them.
use Prim.Native.Nat.{bit_and}
use site_repair_cast.Common.{
  ℕ, zero, suc, ◌*◌, ◌%◌, ◌^◌, ◌<◌, ◌≤◌, ◌≡◌, refl, Bool, true, false, not, ◌&&◌, ◌||◌, ltb, ◌==◌,
  if◌then◌else◌, arith,
}
use site_repair_cast.Protocol.Bitmap.{test_bit, set_bit}

-- The test passes at each number below a bound.
module _ (test : ℕ → Bool) where
  under : ℕ → Bool
  under zero = true
  under (suc bound) = under bound && test bound

  under_at : (bound v : ℕ) → v < bound → under bound ≡ true → test v ≡ true
  unfolding under
  under_at zero v inside passed = absurd (omega arith)
  under_at (suc bound) v inside passed = ground (arith, under_at bound v)

  under_all : (bound : ℕ) → ((v : ℕ) → v < bound → test v ≡ true) → under bound ≡ true
  unfolding under
  under_all zero each = refl
  under_all (suc bound) each =
      rw (each bound (omega arith))
        (ground (arith, under_all bound (λ v below. each v (omega arith))))

abbrev same : Bool → Bool → Bool
same true b = b
same false b = not b

same→eq : (a b : Bool) → same a b ≡ true → a ≡ b
same→eq true b h = ground arith
same→eq false b h = ground arith

abbrev sets : ℕ → ℕ → ℕ → Bool
sets byte i j = same (test_bit (set_bit byte i) j) (if i == j then true else test_bit byte j)

sets_table : under (λ byte. under (λ i. under (λ j. sets byte i j) 8) 8) 256 ≡ true
unfolding under
sets_table = refl

pub test_bit-set_bit :
    (byte i j : ℕ)
    → byte < 256
    → i < 8
    → j < 8
    → test_bit (set_bit byte i) j ≡ (if i == j then true else test_bit byte j)
test_bit-set_bit byte i j h hi hj = same→eq _ _ (
    under_at (λ j. sets byte i j) 8 j hj
      (under_at (λ i. under (λ j. sets byte i j) 8) 8 i hi
        (under_at (λ byte. under (λ i. under (λ j. sets byte i j) 8) 8) 256 byte h sets_table)))

byte_table : under (λ byte. under (λ i. ltb (set_bit byte i) 256) 8) 256 ≡ true
unfolding under
byte_table = refl

pub set_bit-lt : (byte i : ℕ) → byte < 256 → i < 8 → set_bit byte i < 256
set_bit-lt byte i h hi =
    let small : ltb (set_bit byte i) 256 ≡ true =
      under_at (λ i. ltb (set_bit byte i) 256) 8 i hi
        (under_at (λ byte. under (λ i. ltb (set_bit byte i) 256) 8) 256 byte h byte_table) in
    ground arith

pub test_bit-zero : (j : ℕ) → j < 8 → test_bit 0 j ≡ false
test_bit-zero j h =
    let off : not (test_bit 0 j) ≡ true =
      under_at (λ j. not (test_bit 0 j)) 8 j h (unfold under in refl) in
    ground arith

-- The bits from `used` on, under `static_cast<std::uint8_t>(0xffU<<used)`.
abbrev pub unused_mask : ℕ → ℕ
unused_mask used = 0xff * 2 ^ used % 256

abbrev masks : ℕ → ℕ → Bool
masks byte used =
    not (under (λ j. ltb j used || not (test_bit byte j)) 8) || bit_and byte (unused_mask used) == 0

masks_table : under (λ byte. under (λ used. masks byte used) 8) 256 ≡ true
unfolding under
masks_table = refl

-- A byte with no bit set from `used` on passes the mask.
pub unused_bits :
    (byte used : ℕ)
    → byte < 256
    → used < 8
    → ((j : ℕ) → j < 8 → used ≤ j → test_bit byte j ≡ false)
    → bit_and byte (unused_mask used) ≡ 0
unused_bits byte used h hu off =
    let clear : under (λ j. ltb j used || not (test_bit byte j)) 8 ≡ true =
      under_all (λ j. ltb j used || not (test_bit byte j)) 8 (λ j hj. ground (arith, off j hj)) in
    let row : masks byte used ≡ true =
      under_at (λ used. masks byte used) 8 used hu
        (under_at (λ byte. under (λ used. masks byte used) 8) 256 byte h masks_table) in
    ground (arith, clear, row)
