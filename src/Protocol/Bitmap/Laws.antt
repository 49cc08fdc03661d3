-- ===== src/Protocol/Bitmap/Laws.antt =====
-- Setting and testing blocks of a bitmap in range.
use site_repair_cast.Common.{
  ℕ, zero, suc, ◌*◌, ◌/◌, ◌%◌, ◌<◌, ◌≡◌, refl, Bool, true, false, ltb, ◌==◌, if◌then◌else◌, List,
  [], ◌∷◌, All, length, get_or, set, replicate, length-set, arith, ok,
}
use site_repair_cast.Protocol.Bitmap.{test_bit, set_bit, bitmap_test, bitmap_set}
use site_repair_cast.Protocol.Bitmap.Bytes.{test_bit-set_bit, set_bit-lt, test_bit-zero}

-- The bytes of a `std::vector<std::uint8_t>`.
abbrev pub AreBytes : List ℕ → Type 0
AreBytes = All λ b. b < 256

-- What `bitmap_test` and `bitmap_set` do once the index is in range.
abbrev pub has_bit : List ℕ → ℕ → Bool
has_bit bitmap i = test_bit (get_or bitmap (i / 8) 0) (i % 8)

abbrev pub put_bit : List ℕ → ℕ → List ℕ
put_bit bitmap i = set bitmap (i / 8) (set_bit (get_or bitmap (i / 8) 0) (i % 8))

pub bitmap_test-has_bit :
    (bitmap : List ℕ) (i : ℕ) → i < 8 * length bitmap → bitmap_test bitmap i ≡ ok (has_bit bitmap i)
unfolding bitmap_test
bitmap_test-has_bit bitmap i h =
    let inside : ltb (i / 8) (length bitmap) ≡ true = ground arith in rw inside

pub bitmap_set-put_bit :
    (bitmap : List ℕ) (i : ℕ) → i < 8 * length bitmap → bitmap_set bitmap i ≡ ok (put_bit bitmap i)
unfolding bitmap_set
bitmap_set-put_bit bitmap i h =
    let inside : ltb (i / 8) (length bitmap) ≡ true = ground arith in rw inside

get_or-set :
    (xs : List ℕ) (i j v : ℕ)
    → i < length xs
    → get_or (set xs i v) j 0 ≡ (if i == j then v else get_or xs j 0)
get_or-set [] i j v h = absurd (omega arith)
get_or-set (x ∷ xs) zero zero v h = refl
get_or-set (x ∷ xs) zero (suc j) v h = ground arith
get_or-set (x ∷ xs) (suc i) zero v h = ground arith
get_or-set (x ∷ xs) (suc i) (suc j) v h = ground (arith, get_or-set xs i j v)

pub get_or-lt : (xs : List ℕ) (i : ℕ) → AreBytes xs → get_or xs i 0 < 256
get_or-lt [] i h = omega arith
get_or-lt (x ∷ xs) zero h = h.0
get_or-lt (x ∷ xs) (suc i) h = get_or-lt xs i h.1

set-AreBytes : (xs : List ℕ) (i v : ℕ) → AreBytes xs → v < 256 → AreBytes (set xs i v)
set-AreBytes [] i v h hv = tt
set-AreBytes (x ∷ xs) zero v h hv = (hv, h.1)
set-AreBytes (x ∷ xs) (suc i) v h hv = (h.0, set-AreBytes xs i v h.1 hv)

pub replicate-AreBytes : (n : ℕ) → AreBytes (replicate n 0)
replicate-AreBytes zero = tt
replicate-AreBytes (suc n) = (omega arith, replicate-AreBytes n)

get_or-replicate : (n i : ℕ) → ◌≡◌ {A = ℕ} (get_or (replicate n 0) i 0) 0
get_or-replicate zero i = refl
get_or-replicate (suc n) zero = refl
get_or-replicate (suc n) (suc i) = get_or-replicate n i

pub has_bit-replicate : (n i : ℕ) → has_bit (replicate n 0) i ≡ false
has_bit-replicate n i = rw (get_or-replicate n (i / 8)) (test_bit-zero (i % 8) (omega arith))

pub put_bit-AreBytes : (bitmap : List ℕ) (i : ℕ) → AreBytes bitmap → AreBytes (put_bit bitmap i)
put_bit-AreBytes bitmap i h =
    set-AreBytes bitmap (i / 8) _ h
      (set_bit-lt _ (i % 8) (get_or-lt bitmap (i / 8) h) (omega arith))

pub length-put_bit : (bitmap : List ℕ) (i : ℕ) → length (put_bit bitmap i) ≡ length bitmap
length-put_bit bitmap i = length-set bitmap (i / 8) _

-- A block that is set is marked, and no other mark changes.
pub has_bit-put_bit :
    (bitmap : List ℕ) (i j : ℕ)
    → AreBytes bitmap
    → i < 8 * length bitmap
    → has_bit (put_bit bitmap i) j ≡ (if i == j then true else has_bit bitmap j)
has_bit-put_bit bitmap i j bytes inside = ground (
  arith,
  get_or-set bitmap (i / 8) (j / 8) (set_bit (get_or bitmap (i / 8) 0) (i % 8)),
  test_bit-set_bit (get_or bitmap (i / 8) 0) (i % 8) (j % 8) (get_or-lt bitmap (i / 8) bytes),
)
