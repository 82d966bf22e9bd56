-- ===== src/Encoding/Hex.antt =====
-- encoding/src/hex.c: bytes as pairs of hexadecimal digits.
pub mod RoundTrip
use coter.Base.{
  ℕ, suc, true, false, ◌+◌, ◌-◌, ◌*◌, ◌/◌, ◌%◌, Bool, Option, none, some, [], ◌∷◌, ◌++◌, ℤ,
  minus_one, to_int, leb, ltb, ◌==◌, ◌&&◌, Bytes, length, if◌then◌else◌,
}

-- `s_hex_encode_table`, in ASCII
unfoldable pub digit : ℕ → ℕ
digit n = if ltb n 10 then 48 + n else 87 + n

-- `s_hex_decode_table`, with `none` for -1
unfoldable pub digit_value : ℕ → Option ℕ
digit_value c =
    if leb 48 c && leb c 57
    then some (c - 48)
    else if leb 65 c && leb c 70
    then some (c - 55)
    else if leb 97 c && leb c 102
    then some (c - 87)
    else none

-- The digits of as many bytes as have room for both of their digits.
unfoldable pub encode_loop : Bytes → ℕ → Bytes
encode_loop [] room = []
encode_loop (x ∷ xs) room =
    let rest = encode_loop xs (room - 2) in
    if ltb 1 room then digit (x / 16 % 16) ∷ digit (x % 16) ∷ rest else []

-- The result and what is written, which ends with a zero if that has room.
unfoldable pub encode : Bytes → ℕ → ℤ × Bytes
encode xs max =
    if max == 0
    then (minus_one, [])
    else let text = encode_loop xs max in
      (to_int (length text), (if ltb (length text) max then text ++ 0 ∷ [] else text))

-- The bytes of the pairs for which there is room, and whether every digit read is one.
unfoldable pub decode_loop : Bytes → ℕ → Bool × Bytes
decode_loop (a ∷ b ∷ xs) (suc room) =
    let (ok, rest) = decode_loop xs room in
    elim (digit_value a) [
      | none ↦ (false, [])
      | some high ↦ elim (digit_value b) [
        | none ↦ (false, [])
        | some low ↦ (ok, ((high * 16 + low) ∷ rest))
      ]
    ]
decode_loop _ _ = (true, [])

-- `xs` is the text of the given length, or up to its zero byte if that is given as 0.
unfoldable pub decode : Bytes → ℕ → ℤ × Bytes
decode xs max =
    if max == 0
    then (minus_one, [])
    else if (length xs % 2) == 1
    then (minus_one, [])
    else let (ok, out) = decode_loop xs max in (if ok then to_int (length out) else minus_one, out)
