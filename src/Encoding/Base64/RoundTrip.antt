-- ===== src/Encoding/Base64/RoundTrip.antt =====
-- What ct_base64_encode writes, ct_base64_decode reads back.
use coter.Base.{
  ℕ, true, false, ◌+◌, ◌*◌, ◌/◌, ◌%◌, ◌<◌, ◌≡◌, ◌≢◌, refl, ap, ap₂, ◌∙◌, arith, Bool, some, [], ◌∷◌,
  ◌++◌, ltb, Bytes, bit_or, bit_and, shl, shr, and_low, or_disjoint, length, take_of_append, take,
}
use coter.Encoding.Binary.Swap.{AllBytes}
use coter.Encoding.Base64.{
  encode_single, decode_single, quad, padded, encode, decode_group, decode_loop, decode,
}
use coter.Encoding.Base64.Text.{text_of, encode-text_of, length-text_of, groups}

decode_single-encode_single : (c : ℕ) → c < 64 → decode_single (encode_single c) ≡ some c
unfolding decode_single encode_single
decode_single-encode_single c h = ground arith

decode_single-pad : decode_single 61 ≡ some 64
unfolding decode_single
decode_single-pad = refl

encode_single-legal : (c : ℕ) → encode_single c ≢ 61
unfolding encode_single
encode_single-legal c = ground arith

-- a group of four numbers below 64
group_of :
    (a b c d : ℕ)
    → a < 64
    → b < 64
    → c < 64
    → d < 64
    → decode_group (encode_single a) (encode_single b) (encode_single c) (encode_single d)
      ≡ some (
          bit_or (shl a 2) (shr b 4) % 256
          ∷ bit_or (shl b 4) (shr c 2) % 256
          ∷ bit_or (shl c 6) d % 256
          ∷ [])
unfolding decode_group
group_of a b c d p q r s =
    rw
      (
        decode_single-encode_single a p,
        decode_single-encode_single b q,
        decode_single-encode_single c r,
        decode_single-encode_single d s,
      )
      (ground (arith, encode_single-legal c, encode_single-legal d))

one_group :
    (a b c d : ℕ) (rest : Bytes) {out : Bytes}
    → decode_group a b c d ≡ some out
    → decode_loop (a ∷ b ∷ c ∷ d ∷ rest) ≡ (let (ok, more) = decode_loop rest in (ok, out ++ more))
unfolding decode_loop
one_group a b c d rest e = ground arith

-- a group of two numbers, and of three
group_of_two :
    (a b : ℕ)
    → a < 64
    → b < 64
    → decode_group (encode_single a) (encode_single b) 61 61
      ≡ some (bit_or (shl a 2) (shr b 4) % 256 ∷ [])
unfolding decode_group
group_of_two a b p q =
    rw (decode_single-encode_single a p, decode_single-encode_single b q, decode_single-pad)
      (ground arith)

group_of_three :
    (a b c : ℕ)
    → a < 64
    → b < 64
    → c < 64
    → decode_group (encode_single a) (encode_single b) (encode_single c) 61
      ≡ some (bit_or (shl a 2) (shr b 4) % 256 ∷ bit_or (shl b 4) (shr c 2) % 256 ∷ [])
unfolding decode_group
group_of_three a b c p q r =
    rw
      (
        decode_single-encode_single a p,
        decode_single-encode_single b q,
        decode_single-encode_single c r,
        decode_single-pad,
      )
      (ground (arith, encode_single-legal c))

-- the numbers of a group of three bytes
module _ (x y z : ℕ) (hx : x < 256) (hy : y < 256) (hz : z < 256) where
  second_number : bit_or (shl (bit_and x 3) 4) (shr y 4) ≡ x % 4 * 16 + y / 16
  second_number = rw (and_low 2 x) (or_disjoint 4 (x % 4) (y / 16) (omega arith))

  third_number : bit_or (shl (bit_and y 15) 2) (shr z 6) ≡ y % 16 * 4 + z / 64
  third_number = rw (and_low 4 y) (or_disjoint 2 (y % 16) (z / 64) (omega arith))

  first_byte : bit_or (shl (x / 4) 2) (shr (x % 4 * 16 + y / 16) 4) % 256 ≡ x
  first_byte = rw (or_disjoint 2 (x / 4) ((x % 4 * 16 + y / 16) / 16) (omega arith)) (omega arith)

  second_byte : bit_or (shl (x % 4 * 16 + y / 16) 4) (shr (y % 16 * 4 + z / 64) 2) % 256 ≡ y
  second_byte =
      rw (or_disjoint 4 (x % 4 * 16 + y / 16) ((y % 16 * 4 + z / 64) / 4) (omega arith))
        (omega arith)

  third_byte : bit_or (shl (y % 16 * 4 + z / 64) 6) (z % 64) % 256 ≡ z
  third_byte = rw (or_disjoint 6 (y % 16 * 4 + z / 64) (z % 64) (omega arith)) (omega arith)

  decode_group-quad :
      decode_group
        (encode_single (shr x 2))
        (encode_single (bit_or (shl (bit_and x 3) 4) (shr y 4)))
        (encode_single (bit_or (shl (bit_and y 15) 2) (shr z 6)))
        (encode_single (bit_and z 63))
      ≡ some (x ∷ y ∷ z ∷ [])
  decode_group-quad =
      rw (second_number, third_number, and_low 6 z)
        (group_of (x / 4) (x % 4 * 16 + y / 16) (y % 16 * 4 + z / 64) (z % 64) (omega arith)
            (omega arith) (omega arith) (omega arith)
          ∙ ap some (rw (first_byte, second_byte, third_byte) refl))

  decode_loop-quad :
      (rest : Bytes)
      → decode_loop (quad x y z ++ rest)
        ≡ (let (ok, out) = decode_loop rest in (ok, x ∷ y ∷ z ∷ out))
  unfolding quad
  decode_loop-quad rest = one_group _ _ _ _ rest decode_group-quad

-- the last group of one byte, and of two
decode_group-one :
    (x : ℕ)
    → x < 256
    → decode_group (encode_single (shr x 2)) (encode_single (shl (bit_and x 3) 4)) 61 61
      ≡ some (x ∷ [])
decode_group-one x h =
    let second : shl (bit_and x 3) 4 ≡ x % 4 * 16 + 0 / 16 = rw (and_low 2 x) (omega arith) in
    rw (second) (
      group_of_two (x / 4) (x % 4 * 16 + 0 / 16) (omega arith) (omega arith)
      ∙ ap (λ (t : ℕ). some (t ∷ [])) (first_byte x 0 0 h (omega arith) (omega arith)))

decode_group-two :
    (x y : ℕ)
    → x < 256
    → y < 256
    → decode_group
        (encode_single (shr x 2))
        (encode_single (bit_or (shl (bit_and x 3) 4) (shr y 4)))
        (encode_single (shl (bit_and y 15) 2))
        61
      ≡ some (x ∷ y ∷ [])
decode_group-two x y h k =
    let third : shl (bit_and y 15) 2 ≡ y % 16 * 4 + 0 / 64 = rw (and_low 4 y) (omega arith) in
    rw (second_number x y 0 h k (omega arith), third)
      (group_of_three (x / 4) (x % 4 * 16 + y / 16) (y % 16 * 4 + 0 / 64) (omega arith)
          (omega arith) (omega arith)
        ∙ ap₂ (λ (s t : ℕ). some (s ∷ t ∷ [])) (first_byte x y 0 h k (omega arith))
            (second_byte x y 0 h k (omega arith)))

decode_loop-text_of : (xs : Bytes) → AllBytes xs → decode_loop (text_of xs) ≡ (true, xs)
unfolding text_of padded decode_loop
decode_loop-text_of (x ∷ y ∷ z ∷ xs) h =
    decode_loop-quad x y z h.0 h.1.0 h.1.1.0 (text_of xs)
    ∙ ap (λ (r : Bool × Bytes). (r.0, x ∷ y ∷ z ∷ r.1)) (decode_loop-text_of xs h.1.1.1)
decode_loop-text_of (x ∷ y ∷ []) h = one_group _ _ _ _ [] (decode_group-two x y h.0 h.1.0)
decode_loop-text_of (x ∷ []) h = one_group _ _ _ _ [] (decode_group-one x h.0)
decode_loop-text_of [] h = refl

-- Bytes, with room for their text and a zero behind it: ct_base64_encode returns the length of the
-- text, four characters for every three bytes that have begun, and ct_base64_decode of that text,
-- with the room that it asks for, returns the number of bytes and writes the bytes and a zero.
pub base64_round_trip :
    (xs : Bytes) (max out : ℕ)
    → AllBytes xs
    → groups (length xs) * 4 < max
    → groups (length xs) * 3 < out
    → let (n, text) = encode xs max in
      (n ≡ groups (length xs) * 4) × (decode (take n text) out ≡ (length xs, xs ++ 0 ∷ []))
unfolding decode
base64_round_trip xs max out b h k =
    let size = length-text_of xs in
    rw (encode-text_of xs max (omega (arith, size))) (
      size,
      (let whole = take_of_append (text_of xs) (0 ∷ []) (length (text_of xs)) refl in
          let room : ltb out (length (text_of xs) / 4 * 3 + 1) ≡ false = ground (arith, size) in
          rw (whole, room, decode_loop-text_of xs b) refl),
    )
