-- ===== src/Encoding/Binary/Native.antt =====
-- The native-order accesses of binary.h, and the forms of all accesses with an offset.
use coter.Base.{ℕ, ◌+◌, Bytes}
use coter.Encoding.Binary.{
  Endian, load, store, le_get_u16, le_get_u32, le_get_u64, le_set_u16, le_set_u32, le_set_u64,
  be_get_u16, be_get_u32, be_get_u64, be_set_u16, be_set_u32, be_set_u64,
}

-- The pointer is to byte `p` of the block.
module _ (host : Endian) where
  abbrev pub ne_get_u16 : Bytes → ℕ → ℕ
  ne_get_u16 buf p = load host 2 buf p

  abbrev pub ne_set_u16 : Bytes → ℕ → ℕ → Bytes
  ne_set_u16 buf p v = store host 2 buf p v

  abbrev pub ne_get_u32 : Bytes → ℕ → ℕ
  ne_get_u32 buf p = load host 4 buf p

  abbrev pub ne_set_u32 : Bytes → ℕ → ℕ → Bytes
  ne_set_u32 buf p v = store host 4 buf p v

  abbrev pub ne_get_u64 : Bytes → ℕ → ℕ
  ne_get_u64 buf p = load host 8 buf p

  abbrev pub ne_set_u64 : Bytes → ℕ → ℕ → Bytes
  ne_set_u64 buf p v = store host 8 buf p v

  abbrev pub le_get_u16_at : Bytes → ℕ → ℕ → ℕ
  le_get_u16_at buf p offset = le_get_u16 host buf (p + offset)

  abbrev pub le_set_u16_at : Bytes → ℕ → ℕ → ℕ → Bytes
  le_set_u16_at buf p offset v = le_set_u16 host buf (p + offset) v

  abbrev pub le_get_u32_at : Bytes → ℕ → ℕ → ℕ
  le_get_u32_at buf p offset = le_get_u32 host buf (p + offset)

  abbrev pub le_set_u32_at : Bytes → ℕ → ℕ → ℕ → Bytes
  le_set_u32_at buf p offset v = le_set_u32 host buf (p + offset) v

  abbrev pub le_get_u64_at : Bytes → ℕ → ℕ → ℕ
  le_get_u64_at buf p offset = le_get_u64 host buf (p + offset)

  abbrev pub le_set_u64_at : Bytes → ℕ → ℕ → ℕ → Bytes
  le_set_u64_at buf p offset v = le_set_u64 host buf (p + offset) v

  abbrev pub be_get_u16_at : Bytes → ℕ → ℕ → ℕ
  be_get_u16_at buf p offset = be_get_u16 host buf (p + offset)

  abbrev pub be_set_u16_at : Bytes → ℕ → ℕ → ℕ → Bytes
  be_set_u16_at buf p offset v = be_set_u16 host buf (p + offset) v

  abbrev pub be_get_u32_at : Bytes → ℕ → ℕ → ℕ
  be_get_u32_at buf p offset = be_get_u32 host buf (p + offset)

  abbrev pub be_set_u32_at : Bytes → ℕ → ℕ → ℕ → Bytes
  be_set_u32_at buf p offset v = be_set_u32 host buf (p + offset) v

  abbrev pub be_get_u64_at : Bytes → ℕ → ℕ → ℕ
  be_get_u64_at buf p offset = be_get_u64 host buf (p + offset)

  abbrev pub be_set_u64_at : Bytes → ℕ → ℕ → ℕ → Bytes
  be_set_u64_at buf p offset v = be_set_u64 host buf (p + offset) v

  abbrev pub ne_get_u16_at : Bytes → ℕ → ℕ → ℕ
  ne_get_u16_at buf p offset = ne_get_u16 buf (p + offset)

  abbrev pub ne_set_u16_at : Bytes → ℕ → ℕ → ℕ → Bytes
  ne_set_u16_at buf p offset v = ne_set_u16 buf (p + offset) v

  abbrev pub ne_get_u32_at : Bytes → ℕ → ℕ → ℕ
  ne_get_u32_at buf p offset = ne_get_u32 buf (p + offset)

  abbrev pub ne_set_u32_at : Bytes → ℕ → ℕ → ℕ → Bytes
  ne_set_u32_at buf p offset v = ne_set_u32 buf (p + offset) v

  abbrev pub ne_get_u64_at : Bytes → ℕ → ℕ → ℕ
  ne_get_u64_at buf p offset = ne_get_u64 buf (p + offset)

  abbrev pub ne_set_u64_at : Bytes → ℕ → ℕ → ℕ → Bytes
  ne_set_u64_at buf p offset v = ne_set_u64 buf (p + offset) v
