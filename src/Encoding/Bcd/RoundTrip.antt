-- ===== src/Encoding/Bcd/RoundTrip.antt =====
-- Encoding a number and decoding it again.
use coter.Base.{
  ℕ, ◌+◌, ◌*◌, ◌/◌, ◌%◌, ◌^◌, ◌<◌, ◌≡◌, refl, sym, ap, ◌∙◌, arith, true, bit_and, bit_or, shr,
  and_low, and_fields, or_fields, and_no_byte, or-zero, zero-or,
}
use coter.Encoding.Bcd.{is_valid_u8, is_valid_u16, encode_u8, encode_u16, decode_u8, decode_u16}

-- two digits as they are packed
abbrev pub packed : ℕ → ℕ
packed n = n / 10 * 16 + n % 10

-- the upper byte of a product, in place
upper_byte : (v : ℕ) → v < 2 ^ 16 → bit_and v 0xff00 ≡ v / 256 * 256
upper_byte v h =
    let split : v ≡ v / 256 * 256 + v % 256 = omega arith in
    ap (λ t. bit_and t 0xff00) split
    ∙ and_no_byte (v / 256) 255 (v % 256) (omega arith)
    ∙ ap (λ t. t * 256) (and_low 8 (v / 256) ∙ omega arith)

two_bytes : (x q : ℕ) → x < 256 → bit_or x (q * 256) ≡ q * 256 + x
two_bytes x q h =
    let e : 0 * 2 ^ 8 + x ≡ x = omega arith in
    let f : q * 2 ^ 8 + 0 ≡ q * 256 = omega arith in
    omega (
      arith,
      ap (λ t. bit_or t (q * 2 ^ 8 + 0)) e,
      ap (λ t. bit_or x t) f,
      or_fields 8 0 q x 0,
      zero-or q,
      or-zero x,
    )

pub encode_u16-digits :
    (h l : ℕ) → h < 100 → l < 100 → encode_u16 (h * 100 + l) ≡ packed h * 256 + packed l
unfolding encode_u16
encode_u16-digits h l p q =
    let whole : (h * 100 + l) % 10000 ≡ h * 100 + l = omega arith in
    let over : (h * 100 + l + (h * 100 + l) / 100 * 156) % 2 ^ 16 ≡ h * 256 + l = omega arith in
    let low : bit_and (shr (h * 256 + l) 1) 0x7f ≡ l / 2 =
      and_low 7 (shr (h * 256 + l) 1) ∙ omega arith in
    let high : bit_and (shr (h * 256 + l) 9) 0x7f ≡ h / 2 =
      and_low 7 (shr (h * 256 + l) 9) ∙ omega arith in
    rw
      (
        whole,
        over,
        low,
        high,
        upper_byte (h / 2 * 52) (omega arith),
        two_bytes (shr (l / 2 * 52) 8) (h / 2 * 52 / 256) (omega arith),
      )
      (omega arith)

pub decode_u16-digits :
    (a b c d : ℕ)
    → a < 10
    → b < 10
    → c < 10
    → d < 10
    → decode_u16 ((a * 16 + b) * 256 + (c * 16 + d)) ≡ (a * 10 + b) * 100 + (c * 10 + d)
unfolding decode_u16
decode_u16-digits a b c d p q r s =
    let bcd = (a * 16 + b) * 256 + (c * 16 + d) in
    let moved : shr bcd 4 ≡ a * 2 ^ 8 + (b * 16 + c) = omega arith in
    let tens : bit_and (a * 2 ^ 8 + (b * 16 + c)) (15 * 2 ^ 8 + 15) ≡ a * 256 + c =
      and_fields 8 a 15 (b * 16 + c) 15 (omega arith) (omega arith)
      ∙ omega (arith, and_low 4 a, and_low 4 (b * 16 + c)) in
    rw (moved, tens) (omega arith)

valid_byte : (n : ℕ) → n < 100 → is_valid_u8 (packed n) ≡ true
unfolding is_valid_u8
valid_byte n h = let low = and_low 4 (packed n) in ground (arith, low)

-- A number below 100 and one below 10000: the encoding has one decimal digit in every four bits, is
-- valid, and is decoded to the number.
pub bcd_round_trip :
    (m n : ℕ)
    → m < 100
    → n < 10000
    → ((encode_u8 m ≡ packed m)
        × (is_valid_u8 (encode_u8 m) ≡ true)
        × (decode_u8 (encode_u8 m) ≡ m))
      × ((encode_u16 n ≡ packed (n / 100) * 256 + packed (n % 100))
          × (is_valid_u16 (encode_u16 n) ≡ true)
          × (decode_u16 (encode_u16 n) ≡ n))
unfolding encode_u8 decode_u8 is_valid_u16
bcd_round_trip m n h k =
    let one : encode_u8 m ≡ packed m = omega arith in
    let high = n / 100 in
    let low = n % 100 in
    let sum : high * 100 + low ≡ n = omega arith in
    let two : encode_u16 n ≡ packed high * 256 + packed low =
      ap encode_u16 (sym sum) ∙ encode_u16-digits high low (omega arith) (omega arith) in
    let upper : shr (packed high * 256 + packed low) 8 % 2 ^ 8 ≡ packed high = omega arith in
    let lower : (packed high * 256 + packed low) % 2 ^ 8 ≡ packed low = omega arith in
    let back : decode_u16 (packed high * 256 + packed low) ≡ n =
      decode_u16-digits (high / 10) (high % 10) (low / 10) (low % 10) (omega arith) (omega arith)
        (omega arith) (omega arith)
      ∙ omega arith in
    (
      (one, rw one (valid_byte m h), omega arith),
      (
        two,
        rw (two, upper, lower, valid_byte low (omega arith), valid_byte high (omega arith)) refl,
        rw two back,
      ),
    )
