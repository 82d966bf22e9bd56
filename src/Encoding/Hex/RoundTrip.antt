-- ===== src/Encoding/Hex/RoundTrip.antt =====
-- What ct_hex_encode writes, ct_hex_decode reads back.
use coter.Base.{
  ℕ, zero, suc, ◌+◌, ◌-◌, ◌*◌, ◌/◌, ◌%◌, ◌≤◌, ◌<◌, ◌≡◌, refl, ap, ap₂, ◌∙◌, arith, Bool, true,
  false, some, [], ◌∷◌, ◌++◌, to_int, ltb, ◌==◌, Bytes, length, take_of_append, take,
}
use coter.Encoding.Binary.Swap.{AllBytes}
use coter.Encoding.Hex.{digit, digit_value, encode_loop, encode, decode_loop, decode}

digit_value-digit : (n : ℕ) → n < 16 → digit_value (digit n) ≡ some n
unfolding digit digit_value
digit_value-digit n h = ground arith

length-encode_loop :
    (xs : Bytes) (room : ℕ) → length xs * 2 ≤ room → length (encode_loop xs room) ≡ length xs * 2
unfolding encode_loop
length-encode_loop [] room h = omega arith
length-encode_loop (x ∷ xs) room h = ground (arith, length-encode_loop xs (room - 2) (omega arith))

decode_pair :
    (a c : ℕ) (text : Bytes) (out : ℕ) {high low : ℕ}
    → digit_value a ≡ some high
    → digit_value c ≡ some low
    → decode_loop (a ∷ c ∷ text) (suc out)
      ≡ (let (ok, rest) = decode_loop text out in (ok, ((high * 16 + low) ∷ rest)))
unfolding decode_loop
decode_pair a c text out h k = ground arith

decode_loop-encode_loop :
    (xs : Bytes) (room out : ℕ)
    → AllBytes xs
    → length xs * 2 ≤ room
    → length xs ≤ out
    → decode_loop (encode_loop xs room) out ≡ (true, xs)
unfolding encode_loop decode_loop
decode_loop-encode_loop [] room out b h k = refl
decode_loop-encode_loop (x ∷ xs) room zero b h k = absurd (omega arith)
decode_loop-encode_loop (x ∷ xs) room (suc out) b h k =
    let rest = decode_loop-encode_loop xs (room - 2) out b.1 (omega arith) (omega arith) in
    let a = digit (x / 16 % 16) in
    let c = digit (x % 16) in
    let text = encode_loop xs (room - 2) in
    let first : encode_loop (x ∷ xs) room ≡ a ∷ c ∷ text = ground arith in
    let whole : x / 16 % 16 * 16 + x % 16 ≡ x = omega arith in
    ap (λ t. decode_loop t (suc out)) first
    ∙ decode_pair a c text out (digit_value-digit (x / 16 % 16) (omega arith))
        (digit_value-digit (x % 16) (omega arith))
    ∙ ap₂ (λ (r : Bool × Bytes) y. (r.0, y ∷ r.1)) rest whole

-- Bytes written by ct_hex_encode with room for all their digits and the zero behind them: its result
-- is the number of digits, and ct_hex_decode of these digits, with room for the bytes, gives the bytes
-- back and their number.
pub decode-encode :
    (xs : Bytes) (max out : ℕ)
    → AllBytes xs
    → length xs * 2 < max
    → length xs ≤ out
    → 0 < out
    → let (n, text) = encode xs max in
      (n ≡ to_int (length xs * 2))
      × (decode (take (length xs * 2) text) out ≡ (to_int (length xs), xs))
unfolding encode decode
decode-encode xs max out b h k p =
    let text = encode_loop xs max in
    let count : length text ≡ length xs * 2 = length-encode_loop xs max (omega arith) in
    let digits : take (length xs * 2) (text ++ 0 ∷ []) ≡ text =
      take_of_append text (0 ∷ []) (length xs * 2) count in
    let back = decode_loop-encode_loop xs max out b (omega arith) k in
    let some_room : (max == 0) ≡ false = ground arith in
    let some_out : (out == 0) ≡ false = ground arith in
    let ends : ltb (length text) max ≡ true = ground arith in
    let pairs : (length text % 2 == 1) ≡ false = ground arith in
    rw (some_room, ends, digits, some_out, pairs, back) (ap to_int count, refl)
