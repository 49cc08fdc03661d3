-- ===== src/Protocol/Bytes/Laws.antt =====
-- Reader calls on the bytes of writer calls.
use native.Mathlib.Nat.{add_assoc, add-zero}
use site_repair_cast.Common.{
  drop-append_short, take-append_short, inr, inl, ltb, Bool-cases, drop, ◌⊎◌, truncated_packet, err,
  zero, ◌∷◌, suc, take, ◌≤◌, ◌+◌, true, leb, ◌==◌, ℕ, ◌%◌, ◌^◌, ◌<◌, ◌≡◌, refl, List, ◌++◌, length,
  length-append, take-append, drop-append, arith, ok, [],
}
use site_repair_cast.Protocol.Bytes.{
  of_be, put_u16, put_u32, put_u64, get_bytes, get_u16, get_u32, get_u64,
}

pub length-put_u16 : (v : ℕ) → length (put_u16 v) ≡ 2
unfolding put_u16
length-put_u16 v = refl

pub length-put_u32 : (v : ℕ) → length (put_u32 v) ≡ 4
unfolding put_u32
length-put_u32 v = refl

pub length-put_u64 : (v : ℕ) → length (put_u64 v) ≡ 8
unfolding put_u64
length-put_u64 v = refl

pub get_u16-put_u16 : (v : ℕ) (rest : List ℕ) → get_u16 (put_u16 v ++ rest) ≡ ok (v % 2 ^ 16, rest)
unfolding get_u16 put_u16
get_u16-put_u16 v rest = ground arith

pub get_u32-put_u32 : (v : ℕ) (rest : List ℕ) → get_u32 (put_u32 v ++ rest) ≡ ok (v % 2 ^ 32, rest)
unfolding get_u32 put_u32
get_u32-put_u32 v rest = ground arith

pub get_u64-put_u64 : (v : ℕ) (rest : List ℕ) → get_u64 (put_u64 v ++ rest) ≡ ok (v % 2 ^ 64, rest)
unfolding get_u64 put_u64
get_u64-put_u64 v rest = ground arith

pub get_bytes-append :
    (n : ℕ) (xs rest : List ℕ) → length xs ≡ n → get_bytes n (xs ++ rest) ≡ ok (xs, rest)
unfolding get_bytes
get_bytes-append n xs rest h =
    ground (arith, length-append xs rest, take-append xs rest n, drop-append xs rest n)

-- The last field of a frame has nothing behind it.
pub get_bytes_all : (xs : List ℕ) → get_bytes (length xs) (xs ++ []) ≡ ok (xs, [])
get_bytes_all xs = get_bytes-append (length xs) xs [] refl

-- Four bytes at hand are read whatever comes behind them.
pub get_u32-cases :
    (bytes : List ℕ)
    → (get_u32 bytes ≡ err truncated_packet × length bytes < 4)
      ⊎ (4 ≤ length bytes
          × (n : ℕ) × ((ys : List ℕ) → get_u32 (bytes ++ ys) ≡ ok (n, drop 4 bytes ++ ys))
          × get_u32 bytes ≡ ok (n, drop 4 bytes))
unfolding get_u32 get_bytes
get_u32-cases bytes = elim (Bool-cases (ltb (length bytes) 4)) [
  | inl h ↦ inl (ground arith, ground arith)
  | inr h ↦ inr (
    ground arith,
    of_be 0 (take 4 bytes),
    (λ ys. ground (
      arith,
      length-append bytes ys,
      take-append_short 4 bytes ys,
      drop-append_short 4 bytes ys,
    )),
    ground arith,
  )
]

-- Tests that hold of a written frame: it is as long as its fixed part, and a field is what it is.
pub leb-self_add : (a n : ℕ) → leb a (a + n) ≡ true
leb-self_add a n = ground arith

pub eq_self : (n : ℕ) → (n == n) ≡ true
eq_self n = ground arith

-- The length of a written packet, and the reads that take it apart again.
pub ruleset wire = (
  length-append, length-put_u16, length-put_u32, length-put_u64, get_u16-put_u16, get_u32-put_u32,
  get_u64-put_u64,
)

-- For frames with a variable part.
pub ruleset long_wire =
    (wire, get_bytes_all, get_bytes-append, ← add_assoc, add-zero, leb-self_add, eq_self)

length-take_within : (xs : List ℕ) (n : ℕ) → n ≤ length xs → length (take n xs) ≡ n
length-take_within xs zero h = refl
length-take_within [] (suc n) h = absurd (omega arith)
length-take_within (x ∷ xs) (suc n) h = omega (arith, length-take_within xs n (omega arith))

pub length-get_bytes :
    (n : ℕ) (bytes xs rest : List ℕ) → get_bytes n bytes ≡ ok (xs, rest) → length xs ≡ n
unfolding get_bytes
length-get_bytes n bytes xs rest h = ground (arith, length-take_within bytes n)
