-- ===== src/Encoding/Tests.antt =====
-- Concrete runs of the loads and stores, and of the text and decimal encodings.
use coter.Base.{refl, true, ◌+◌, ◌*◌, ◌≡◌, arith, [], ◌∷◌, Bytes, take, ◌++◌, splice}
use mathlib.Core.List.{reverse}
use coter.Encoding.Binary.{
  le_bytes, big, le_get_u16, le_get_u32, le_get_u64, le_set_u16, le_set_u32, le_set_u64, be_get_u16,
  be_get_u32, be_get_u64, be_set_u16, be_set_u32, be_set_u64,
}
use coter.Encoding.Bcd.{
  is_valid_u8, is_valid_u16, encode_u8, encode_u16, encode_u32, encode_u64, decode_u8, decode_u16,
  decode_u32, decode_u64,
}
use coter.Encoding.Bcd.RoundTrip.{packed, bcd_round_trip}
use coter.Encoding.Base64
use coter.Encoding.Base64.RoundTrip.{base64_round_trip}
use coter.Encoding.Binary.Store.{get-set}

abbrev memory : Bytes
memory = 0 ∷ 0 ∷ 0 ∷ 0 ∷ 0 ∷ 0 ∷ 0 ∷ 0 ∷ 0 ∷ []

-- the last two bytes of three
abbrev three_bytes : Bytes
three_bytes = 0 ∷ 0 ∷ 0 ∷ []

get-set_example :
    ((le_set_u16 big three_bytes 1 258 ≡ 0 ∷ 2 ∷ 1 ∷ [])
      × (le_set_u32 big memory 1 16909060 ≡ splice memory 1 (4 ∷ 3 ∷ 2 ∷ 1 ∷ []))
      × (le_set_u64 big memory 1 5 ≡ splice memory 1 (le_bytes 8 5))
      × (be_set_u16 big three_bytes 1 258 ≡ 0 ∷ 1 ∷ 2 ∷ [])
      × (be_set_u32 big memory 1 16909060 ≡ splice memory 1 (1 ∷ 2 ∷ 3 ∷ 4 ∷ []))
      × (be_set_u64 big memory 1 5 ≡ splice memory 1 (reverse (le_bytes 8 5))))
    × (le_get_u16 big (le_set_u16 big three_bytes 1 258) 1 ≡ 258)
    × (le_get_u32 big (le_set_u32 big memory 1 16909060) 1 ≡ 16909060)
    × (le_get_u64 big (le_set_u64 big memory 1 5) 1 ≡ 5)
    × (be_get_u16 big (be_set_u16 big three_bytes 1 258) 1 ≡ 258)
    × (be_get_u32 big (be_set_u32 big memory 1 16909060) 1 ≡ 16909060)
    × (be_get_u64 big (be_set_u64 big memory 1 5) 1 ≡ 5)
unfolding splice
get-set_example =
    get-set big three_bytes memory memory 1 1 1 258 16909060 5 (omega arith) (omega arith)
      (omega arith) (omega arith) (omega arith) (omega arith)

abbrev four_bytes : Bytes
four_bytes = 72 ∷ 105 ∷ 10 ∷ 255 ∷ []

base64_round_trip_example :
    let (n, text) = Base64.encode four_bytes 9 in
    (n ≡ 8) × (Base64.decode (take n text) 7 ≡ (4, four_bytes ++ 0 ∷ []))
base64_round_trip_example =
    base64_round_trip four_bytes 9 7 (omega arith, (omega arith, (omega arith, (omega arith, tt))))
      (omega arith) (omega arith)

bcd_round_trip_example :
    ((encode_u8 42 ≡ packed 42)
      × (is_valid_u8 (encode_u8 42) ≡ true)
      × (decode_u8 (encode_u8 42) ≡ 42))
    × ((encode_u16 9071 ≡ packed 90 * 256 + packed 71)
        × (is_valid_u16 (encode_u16 9071) ≡ true)
        × (decode_u16 (encode_u16 9071) ≡ 9071))
bcd_round_trip_example = bcd_round_trip 42 9071 (omega arith) (omega arith)

-- the wider encodings
encode_u32-digits : encode_u32 98760213 ≡ 0x98760213
unfolding encode_u32
encode_u32-digits = refl

encode_u64-digits : encode_u64 9876543210123456 ≡ 0x9876543210123456
unfolding encode_u64
encode_u64-digits = refl

decode_u32-digits : decode_u32 0x98760213 ≡ 98760213
unfolding decode_u32
decode_u32-digits = refl

decode_u64-digits : decode_u64 0x9876543210123456 ≡ 9876543210123456
unfolding decode_u64
decode_u64-digits = refl
