-- ===== src/Protocol/Bytes.antt =====
-- `PacketWriter` and `PacketReader`. A byte is a number below 256. A writer call is the list of the
-- bytes that it appends, and an encoder is the list of its calls. The reader's `data_+offset_` up to
-- `size_` is the list of the bytes that are left.
pub mod Laws
use site_repair_cast.Common.{
  ℕ, zero, suc, ◌+◌, ◌*◌, ◌/◌, ◌%◌, ◌^◌, Bool, true, false, List, [], ◌∷◌, ◌++◌, length, take, drop,
  ltb, if◌then◌else◌, Error, Result, ok, err, truncated_packet,
}

-- The low `k` bytes of `v`, the highest first, as `htons`, `htonl` and `htobe64` lay them out.
be : ℕ → ℕ → List ℕ
be zero v = []
be (suc k) v = (v / 256 ^ k % 256) ∷ be k v

-- `ntohs`, `ntohl` and `be64toh` of the bytes at hand.
of_be : ℕ → List ℕ → ℕ
of_be acc [] = acc
of_be acc (b ∷ bs) = of_be (acc * 256 + b) bs

unfoldable pub put_u16 : ℕ → List ℕ
unfolding be
put_u16 = be 2

unfoldable pub put_u32 : ℕ → List ℕ
unfolding be
put_u32 = be 4

unfoldable pub put_u64 : ℕ → List ℕ
unfolding be
put_u64 = be 8

-- `writer.data()` after the calls.
abbrev pub written : List (List ℕ) → List ℕ
written [] = []
written (c ∷ cs) = c ++ written cs

abbrev pub Reader {ℓ} : Type ℓ → Type ℓ
Reader A = List ℕ → Result (A × List ℕ)

abbrev pub and_then {ℓ κ} :
    {A : Type ℓ} {B : Type κ} → Result (A × List ℕ) → (A → Reader B) → Result (B × List ℕ)
and_then (ok (a, rest)) f = f a rest
and_then (err e) f = err e

infixl 5 ◌>>=◌ ◌>>◌
abbrev pub ◌>>=◌ {ℓ κ} : {A : Type ℓ} {B : Type κ} → Reader A → (A → Reader B) → Reader B
◌>>=◌ m f bytes = and_then (m bytes) f

abbrev pub ◌>>◌ {ℓ κ} : {A : Type ℓ} {B : Type κ} → Reader A → Reader B → Reader B
m >> k = m >>= λ _. k

abbrev pub return {ℓ} : {A : Type ℓ} → A → Reader A
return a bytes = ok (a, bytes)

abbrev pub throw_unless : Bool → Error → Reader (Unit {0})
throw_unless true e bytes = ok (tt, bytes)
throw_unless false e bytes = err e

abbrev pub remaining : Reader ℕ
remaining bytes = ok (length bytes, bytes)

-- `read`, which `bytes` calls.
unfoldable pub get_bytes : ℕ → Reader (List ℕ)
get_bytes size bytes =
    if ltb (length bytes) size then err truncated_packet else ok (take size bytes, drop size bytes)

unfoldable pub get_u16 : Reader ℕ
unfolding get_bytes of_be
get_u16 = do value ← get_bytes 2; return (of_be 0 value)

unfoldable pub get_u32 : Reader ℕ
unfolding get_bytes of_be
get_u32 = do value ← get_bytes 4; return (of_be 0 value)

unfoldable pub get_u64 : Reader ℕ
unfolding get_bytes of_be
get_u64 = do value ← get_bytes 8; return (of_be 0 value)

-- A decoder's result; the bytes that it has not read are dropped with the reader.
abbrev pub decoded {ℓ} : {A : Type ℓ} → Result (A × List ℕ) → Result A
decoded (ok (a, rest)) = ok a
decoded (err e) = err e
