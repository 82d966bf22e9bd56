-- ===== src/Encoding/Binary.antt =====
-- encoding/include/coter/encoding/binary.h: byte swaps of machine words, and loads and stores of
-- words in a chosen byte order, on a host of either byte order.
pub mod Swap
pub mod Store
pub mod Native
pub mod Batch
use mathlib.Core.List.{reverse}
use coter.Base.{
  ℕ, zero, suc, ◌+◌, ◌*◌, ◌/◌, ◌%◌, ◌^◌, List, [], ◌∷◌, Bytes, Bool, true, false, bit_and, bit_or,
  shr, slice, splice,
}

-- `CT_ENDIAN_BIG` and `CT_ENDIAN_LITTLE`; the host's own order, `CT_ENDIAN_SYSTEM`, is an argument.
pub data Endian : Type 0 where
  big little : Endian

-- `<<` on uint16_t (after conversion back), uint32_t and uint64_t
abbrev pub shl16 : ℕ → ℕ → ℕ
shl16 v k = (v * 2 ^ k) % 2 ^ 16

abbrev pub shl32 : ℕ → ℕ → ℕ
shl32 v k = (v * 2 ^ k) % 2 ^ 32

abbrev pub shl64 : ℕ → ℕ → ℕ
shl64 v k = (v * 2 ^ k) % 2 ^ 64

-- The portable branch of each swap; the compilers' built-in functions are documented to agree.
unfoldable pub bswap16 : ℕ → ℕ
bswap16 v = bit_or (shr v 8) (shl16 v 8)

unfoldable pub bswap32 : ℕ → ℕ
bswap32 v =
    let w = bit_or (shl32 (bit_and v 0x0000FFFF) 16) (shr (bit_and v 0xFFFF0000) 16) in
    bit_or (shl32 (bit_and w 0x00FF00FF) 8) (shr (bit_and w 0xFF00FF00) 8)

unfoldable pub bswap64 : ℕ → ℕ
bswap64 v =
    let w =
      bit_or (shl64 (bit_and v 0x00000000FFFFFFFF) 32) (shr (bit_and v 0xFFFFFFFF00000000) 32) in
    let x =
      bit_or (shl64 (bit_and w 0x0000FFFF0000FFFF) 16) (shr (bit_and w 0xFFFF0000FFFF0000) 16) in
    bit_or (shl64 (bit_and x 0x00FF00FF00FF00FF) 8) (shr (bit_and x 0xFF00FF00FF00FF00) 8)

unfoldable pub bswap16_lanes32 : ℕ → ℕ
bswap16_lanes32 v = bit_or (shr (bit_and v 0xFF00FF00) 8) (shl32 (bit_and v 0x00FF00FF) 8)

unfoldable pub bswap16_lanes64 : ℕ → ℕ
bswap16_lanes64 v =
    bit_or (shr (bit_and v 0xFF00FF00FF00FF00) 8) (shl64 (bit_and v 0x00FF00FF00FF00FF) 8)

unfoldable pub reverse16_lanes32 : ℕ → ℕ
reverse16_lanes32 v = bit_or (shr v 16) (shl32 v 16)

unfoldable pub reverse16_lanes64 : ℕ → ℕ
reverse16_lanes64 v = bswap16_lanes64 (bswap64 v)

-- The `n` bytes of a word, the lowest first, and the word that bytes stand for.
abbrev pub le_bytes : ℕ → ℕ → Bytes
le_bytes zero v = []
le_bytes (suc n) v = (v % 256) ∷ le_bytes n (v / 256)

abbrev pub le_value : Bytes → ℕ
le_value [] = 0
le_value (x ∷ xs) = x + 256 * le_value xs

-- `memcpy` from and to a word: the word's bytes in the host's order.
abbrev pub in_memory : Endian → ℕ → ℕ → Bytes
in_memory little n v = le_bytes n v
in_memory big n v = reverse (le_bytes n v)

abbrev pub from_memory : Endian → Bytes → ℕ
from_memory little xs = le_value xs
from_memory big xs = le_value (reverse xs)

-- `CT_BINARY_LOAD` of `n` bytes and `CT_BINARY_STORE` at offset `p`
abbrev pub load : Endian → ℕ → Bytes → ℕ → ℕ
load host n buf p = from_memory host (slice buf p n)

abbrev pub store : Endian → ℕ → Bytes → ℕ → ℕ → Bytes
store host n buf p v = splice buf p (in_memory host n v)

-- The swap under `#if CT_ENDIAN_IS_BIG` and under `#if CT_ENDIAN_IS_LITTLE`.
abbrev pub if_big : Endian → (ℕ → ℕ) → ℕ → ℕ
if_big big swap v = swap v
if_big little swap v = v

abbrev pub if_little : Endian → (ℕ → ℕ) → ℕ → ℕ
if_little big swap v = v
if_little little swap v = swap v

-- `ct_le_get_u16` to `ct_be_set_u64`; the forms with `_at` pass the offset.
module _ (host : Endian) where
  pub le_get_u16 : Bytes → ℕ → ℕ
  le_get_u16 buf p = if_big host bswap16 (load host 2 buf p)

  pub le_get_u32 : Bytes → ℕ → ℕ
  le_get_u32 buf p = if_big host bswap32 (load host 4 buf p)

  unfoldable pub le_get_u64 : Bytes → ℕ → ℕ
  le_get_u64 buf p = if_big host bswap64 (load host 8 buf p)

  pub be_get_u16 : Bytes → ℕ → ℕ
  be_get_u16 buf p = if_little host bswap16 (load host 2 buf p)

  pub be_get_u32 : Bytes → ℕ → ℕ
  be_get_u32 buf p = if_little host bswap32 (load host 4 buf p)

  pub be_get_u64 : Bytes → ℕ → ℕ
  be_get_u64 buf p = if_little host bswap64 (load host 8 buf p)

  pub le_set_u16 : Bytes → ℕ → ℕ → Bytes
  le_set_u16 buf p v = store host 2 buf p (if_big host bswap16 v)

  pub le_set_u32 : Bytes → ℕ → ℕ → Bytes
  le_set_u32 buf p v = store host 4 buf p (if_big host bswap32 v)

  pub le_set_u64 : Bytes → ℕ → ℕ → Bytes
  le_set_u64 buf p v = store host 8 buf p (if_big host bswap64 v)

  pub be_set_u16 : Bytes → ℕ → ℕ → Bytes
  be_set_u16 buf p v = store host 2 buf p (if_little host bswap16 v)

  pub be_set_u32 : Bytes → ℕ → ℕ → Bytes
  be_set_u32 buf p v = store host 4 buf p (if_little host bswap32 v)

  pub be_set_u64 : Bytes → ℕ → ℕ → Bytes
  be_set_u64 buf p v = store host 8 buf p (if_little host bswap64 v)
