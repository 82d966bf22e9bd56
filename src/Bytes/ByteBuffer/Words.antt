-- ===== src/Bytes/ByteBuffer/Words.antt =====
-- The loads and stores of single words of bytes.c, on a host of either byte order.
use coter.Base.{
  ℕ, suc, ◌+◌, ◌-◌, Bool, true, false, Option, none, some, ℤ, pos, negsuc, minus_one, [], ◌∷◌, leb,
  ltb, ◌||◌, if◌then◌else◌, splice, get_or,
}
use coter.Encoding.Binary.{
  Endian, big, little, bswap16, bswap32, bswap64, bswap16_lanes32, bswap16_lanes64,
  reverse16_lanes32, reverse16_lanes64, load, in_memory,
}
use coter.Bytes.ByteBuffer.{ByteBuffer, readable, writable, flag, advance, add32}

-- the test `a == b` on byte orders
abbrev pub same_order : Endian → Endian → Bool
same_order big big = true
same_order little little = true
same_order _ _ = false

-- `pos_ + offset` as int64_t, with `none` for a negative value
abbrev pub abs_pos : ByteBuffer → ℤ → Option ℕ
abs_pos s (pos n) = some (s.pos + n)
abs_pos s (negsuc n) = if ltb s.pos (suc n) then none else some (s.pos - suc n)

module _ (host : Endian) where
  -- The conversion that each access makes between the word and its image in memory.
  abbrev pub order16 : Endian → Bool → ℕ → ℕ
  order16 endian hlswap v = if same_order endian host then v else bswap16 v

  abbrev pub order32 : Endian → Bool → ℕ → ℕ
  order32 endian hlswap v =
      if same_order endian host
      then (if hlswap then bswap16_lanes32 v else v)
      else (if hlswap then reverse16_lanes32 v else bswap32 v)

  abbrev pub order64 : Endian → Bool → ℕ → ℕ
  order64 endian hlswap v =
      if same_order endian host
      then (if hlswap then bswap16_lanes64 v else v)
      else (if hlswap then reverse16_lanes64 v else bswap64 v)

  -- The accesses differ in the width `n` and in the conversion.
  module _ (n : ℕ) (order : Endian → Bool → ℕ → ℕ) where
    unfoldable pub put_word : ByteBuffer → ℕ → ByteBuffer
    put_word s v =
        if ltb (writable s) n
        then flag s
        else advance
            (record s {
              store = splice s.store s.pos (in_memory host n (order s.endian s.hlswap v));
            })
            n

    unfoldable pub take_word : ByteBuffer → ℕ × ByteBuffer
    take_word s =
        if ltb (readable s) n
        then (0, flag s)
        else (order s.endian s.hlswap (load host n s.store s.pos), record s { pos = add32 s.pos n })

    unfoldable pub peek_at : ByteBuffer → Option ℕ → ℕ
    peek_at s none = 0
    peek_at s (some p) =
        if ltb s.len p || ltb (s.len - p) n
        then 0
        else order s.endian s.hlswap (load host n s.store p)

    unfoldable pub peek_word : ByteBuffer → ℤ → ℕ
    peek_word s offset = peek_at s (abs_pos s offset)

    unfoldable pub get_word : ByteBuffer → ℕ → ℕ
    get_word s offset =
        if leb s.len offset || ltb (s.len - offset) n
        then 0
        else order s.endian s.hlswap (load host n s.store offset)

    unfoldable pub set_word : ByteBuffer → ℕ → ℕ → ℤ × ByteBuffer
    set_word s offset v =
        if leb s.len offset || ltb (s.len - offset) n then (minus_one, flag s) else (
          pos 0,
          record s { store = splice s.store offset (in_memory host n (order s.endian s.hlswap v)) },
        )

-- `ct_bytes_put_u8` and its kind: one byte has no order.
unfoldable pub put_u8 : ByteBuffer → ℕ → ByteBuffer
put_u8 s v =
    if ltb (writable s) 1
    then flag s
    else advance (record s { store = splice s.store s.pos (v ∷ []) }) 1

unfoldable pub take_u8 : ByteBuffer → ℕ × ByteBuffer
take_u8 s =
    if ltb (readable s) 1
    then (0, flag s)
    else (get_or s.store s.pos 0, record s { pos = add32 s.pos 1 })

peek_u8_at : ByteBuffer → Option ℕ → ℕ
peek_u8_at s none = 0
peek_u8_at s (some p) = if leb s.len p then 0 else get_or s.store p 0

unfoldable pub peek_u8 : ByteBuffer → ℤ → ℕ
unfolding peek_u8_at
peek_u8 s offset = peek_u8_at s (abs_pos s offset)

unfoldable pub get_u8 : ByteBuffer → ℕ → ℕ
get_u8 s offset = if leb s.len offset || ltb (s.len - offset) 1 then 0 else get_or s.store offset 0

unfoldable pub set_u8 : ByteBuffer → ℕ → ℕ → ℤ × ByteBuffer
set_u8 s offset v =
    if leb s.len offset || ltb (s.len - offset) 1
    then (minus_one, flag s)
    else (pos 0, record s { store = splice s.store offset (v ∷ []) })

module _ (host : Endian) where
  unfoldable pub put_u16 : ByteBuffer → ℕ → ByteBuffer
  unfolding put_word
  put_u16 = put_word host 2 (order16 host)

  unfoldable pub put_u32 : ByteBuffer → ℕ → ByteBuffer
  unfolding put_word
  put_u32 = put_word host 4 (order32 host)

  unfoldable pub put_u64 : ByteBuffer → ℕ → ByteBuffer
  unfolding put_word
  put_u64 = put_word host 8 (order64 host)

  unfoldable pub take_u16 : ByteBuffer → ℕ × ByteBuffer
  unfolding take_word
  take_u16 = take_word host 2 (order16 host)

  unfoldable pub take_u32 : ByteBuffer → ℕ × ByteBuffer
  unfolding take_word
  take_u32 = take_word host 4 (order32 host)

  unfoldable pub take_u64 : ByteBuffer → ℕ × ByteBuffer
  unfolding take_word
  take_u64 = take_word host 8 (order64 host)

  unfoldable pub peek_u16 : ByteBuffer → ℤ → ℕ
  unfolding peek_word peek_at
  peek_u16 = peek_word host 2 (order16 host)

  unfoldable pub peek_u32 : ByteBuffer → ℤ → ℕ
  unfolding peek_word peek_at
  peek_u32 = peek_word host 4 (order32 host)

  unfoldable pub peek_u64 : ByteBuffer → ℤ → ℕ
  unfolding peek_word peek_at
  peek_u64 = peek_word host 8 (order64 host)

  unfoldable pub get_u16 : ByteBuffer → ℕ → ℕ
  unfolding get_word
  get_u16 = get_word host 2 (order16 host)

  unfoldable pub get_u32 : ByteBuffer → ℕ → ℕ
  unfolding get_word
  get_u32 = get_word host 4 (order32 host)

  unfoldable pub get_u64 : ByteBuffer → ℕ → ℕ
  unfolding get_word
  get_u64 = get_word host 8 (order64 host)

  unfoldable pub set_u16 : ByteBuffer → ℕ → ℕ → ℤ × ByteBuffer
  unfolding set_word
  set_u16 = set_word host 2 (order16 host)

  unfoldable pub set_u32 : ByteBuffer → ℕ → ℕ → ℤ × ByteBuffer
  unfolding set_word
  set_u32 = set_word host 4 (order32 host)

  unfoldable pub set_u64 : ByteBuffer → ℕ → ℕ → ℤ × ByteBuffer
  unfolding set_word
  set_u64 = set_word host 8 (order64 host)
