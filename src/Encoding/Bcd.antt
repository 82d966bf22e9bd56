-- ===== src/Encoding/Bcd.antt =====
-- encoding/include/coter/encoding/bcd.h: numbers as packed decimal digits, four bits each.
pub mod RoundTrip
use coter.Base.{ℕ, Bool, ◌+◌, ◌-◌, ◌*◌, ◌/◌, ◌%◌, ◌^◌, bit_and, bit_or, shl, shr, leb, ◌&&◌}

-- the difference of two words of `w` bits
abbrev sub : ℕ → ℕ → ℕ → ℕ
sub w a b = (a + 2 ^ w - b % 2 ^ w) % 2 ^ w

unfoldable pub is_valid_u8 : ℕ → Bool
is_valid_u8 bcd = leb (bit_and bcd 0x0f) 9 && leb (shr bcd 4) 9

unfoldable pub is_valid_u16 : ℕ → Bool
unfolding is_valid_u8
is_valid_u16 bcd = is_valid_u8 (bcd % 2 ^ 8) && is_valid_u8 (shr bcd 8 % 2 ^ 8)

unfoldable pub is_valid_u32 : ℕ → Bool
unfolding is_valid_u16
is_valid_u32 bcd = is_valid_u16 (bcd % 2 ^ 16) && is_valid_u16 (shr bcd 16 % 2 ^ 16)

unfoldable pub is_valid_u64 : ℕ → Bool
unfolding is_valid_u32
is_valid_u64 bcd = is_valid_u32 (bcd % 2 ^ 32) && is_valid_u32 (shr bcd 32 % 2 ^ 32)

unfoldable pub encode_u8 : ℕ → ℕ
encode_u8 n = let bin = n % 100 in (bin + bin / 10 * 6) % 2 ^ 8

-- The bytes with their tens counted six times more.
unfoldable pub encode_u16 : ℕ → ℕ
encode_u16 n =
    let low = n % 10000 in
    let bin = (low + low / 100 * 156) % 2 ^ 16 in
    let lo8 = bit_and (shr bin 1) 0x7f in
    let hi8 = bit_and (shr bin 9) 0x7f in
    let tens = bit_or (shr (lo8 * 52) 8) (bit_and (hi8 * 52) 0xff00) % 2 ^ 16 in
    (bin + tens * 6) % 2 ^ 16

unfoldable pub encode_u32 : ℕ → ℕ
encode_u32 n =
    let low = n % 100000000 in
    let pairs = (low + low / 10000 * 55536 % 2 ^ 32) % 2 ^ 32 in
    let lo16 = bit_and (shr pairs 2) 0x3fff in
    let hi16 = bit_and (shr pairs 18) 0x3fff in
    let hundreds =
      bit_or (shr (lo16 * 1311) 15) (bit_and (shl (hi16 * 1311) 1 % 2 ^ 32) 0xffff0000) in
    let bin = (pairs + hundreds * 156) % 2 ^ 32 in
    let lo8 = bit_and (shr bin 1) 0x007f007f in
    let hi8 = bit_and (shr bin 9) 0x007f007f in
    let tens =
      bit_or (bit_and (shr (lo8 * 52 % 2 ^ 32) 8) 0x00ff00ff)
        (bit_and (hi8 * 52 % 2 ^ 32) 0xff00ff00) in
    (bin + tens * 6) % 2 ^ 32

unfoldable pub encode_u64 : ℕ → ℕ
encode_u64 n =
    let low = n % 10000000000000000 in
    let halves = (low + low / 100000000 * 4194967296) % 2 ^ 64 in
    let hi32_div = shr halves 32 % 2 ^ 32 / 10000 in
    let lo32_div = halves % 2 ^ 32 / 10000 in
    let ten_thousands = bit_or (shl hi32_div 32 % 2 ^ 64) lo32_div in
    let pairs = (halves + ten_thousands * 55536) % 2 ^ 64 in
    let lo16 = bit_and (shr pairs 2) 0x00003fff00003fff in
    let hi16 = bit_and (shr pairs 18) 0x00003fff00003fff in
    let hundreds =
      bit_or (bit_and (shr (lo16 * 1311 % 2 ^ 64) 15) 0x0000ffff0000ffff)
        (bit_and (shl (hi16 * 1311 % 2 ^ 64) 1 % 2 ^ 64) 0xffff0000ffff0000) in
    let bin = (pairs + hundreds * 156) % 2 ^ 64 in
    let lo8 = bit_and (shr bin 1) 0x007f007f007f007f in
    let hi8 = bit_and (shr bin 9) 0x007f007f007f007f in
    let tens =
      bit_or (bit_and (shr (lo8 * 52 % 2 ^ 64) 8) 0x00ff00ff00ff00ff)
        (bit_and (hi8 * 52 % 2 ^ 64) 0xff00ff00ff00ff00) in
    (bin + tens * 6) % 2 ^ 64

unfoldable pub decode_u8 : ℕ → ℕ
decode_u8 bcd = sub 8 bcd (shr bcd 4 * 6)

unfoldable pub decode_u16 : ℕ → ℕ
decode_u16 bcd =
    let pairs = sub 16 bcd (bit_and (shr bcd 4) 0x0f0f * 6) in sub 16 pairs (shr pairs 8 * 156)

unfoldable pub decode_u32 : ℕ → ℕ
decode_u32 bcd =
    let pairs = sub 32 bcd (bit_and (shr bcd 4) 0x0f0f0f0f * 6) in
    let fours = sub 32 pairs (bit_and (shr pairs 8) 0x00ff00ff * 156) in
    sub 32 fours (shr fours 16 * 55536)

unfoldable pub decode_u64 : ℕ → ℕ
decode_u64 bcd =
    let pairs = sub 64 bcd (bit_and (shr bcd 4) 0x0f0f0f0f0f0f0f0f * 6) in
    let fours = sub 64 pairs (bit_and (shr pairs 8) 0x00ff00ff00ff00ff * 156) in
    let eights = sub 64 fours (bit_and (shr fours 16) 0x0000ffff0000ffff * 55536) in
    sub 64 eights (shr eights 32 * 4194967296)
