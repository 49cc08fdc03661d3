-- ===== src/Receiver/StateFile.antt =====
-- `hex_bytes` and `parse_hex_bytes`, the marks in a state file. A character is its code.
use site_repair_cast.Common.{
  refl, ap, ◌-◌, arith, ◌&&◌, ◌%◌, ◌≡◌, [], ◌+◌, leb, ◌/◌, ltb, All, ◌<◌, ◌*◌, ◌∷◌, if◌then◌else◌,
  Option, List, ℕ, none, some,
}

-- `digits[v]`: `0` to `9`, then `a` to `f`.
hex_digit : ℕ → ℕ
hex_digit v = if ltb v 10 then v + 48 else v + 87

unfoldable pub hex_bytes : List ℕ → List ℕ
unfolding hex_digit
hex_bytes [] = []
hex_bytes (byte ∷ bytes) = hex_digit (byte / 16 % 16) ∷ hex_digit (byte % 16) ∷ hex_bytes bytes

value_of : ℕ → Option ℕ
value_of ch =
    if leb 48 ch && leb ch 57
    then some (ch - 48)
    else if leb 97 ch && leb ch 102
    then some (ch - 97 + 10)
    else if leb 65 ch && leb ch 70
    then some (ch - 65 + 10)
    else none

-- One byte before the bytes that follow; the digits are below 16, so that `|` is a sum.
join_byte : Option ℕ → Option ℕ → Option (List ℕ) → Option (List ℕ)
join_byte (some high) (some low) (some bytes) = some ((high * 16 + low) ∷ bytes)
join_byte _ _ _ = none

-- A text of odd length has no value.
unfoldable pub parse_hex_bytes : List ℕ → Option (List ℕ)
unfolding value_of join_byte
parse_hex_bytes [] = some []
parse_hex_bytes (c ∷ []) = none
parse_hex_bytes (high ∷ low ∷ rest) =
    join_byte (value_of high) (value_of low) (parse_hex_bytes rest)

value_of-hex_digit : (v : ℕ) → v < 16 → value_of (hex_digit v) ≡ some v
unfolding value_of hex_digit
value_of-hex_digit v h = ground arith

-- Bytes below 256 written by hex_bytes are read back by parse_hex_bytes as the same bytes.
pub parse_hex_bytes-hex_bytes :
    (bytes : List ℕ) → All (λ b. b < 256) bytes → parse_hex_bytes (hex_bytes bytes) ≡ some bytes
unfolding parse_hex_bytes hex_bytes
parse_hex_bytes-hex_bytes [] h = refl
parse_hex_bytes-hex_bytes (byte ∷ bytes) h =
    rw
      (
        value_of-hex_digit (byte / 16 % 16) (omega arith),
        value_of-hex_digit (byte % 16) (omega arith),
        parse_hex_bytes-hex_bytes bytes h.1,
      )
      (ap (λ (b : ℕ). some (b ∷ bytes)) (omega arith))
