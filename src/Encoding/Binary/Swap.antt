-- ===== src/Encoding/Binary/Swap.antt =====
-- The swaps as permutations of a word's bytes.
use coter.Base.{
  ℕ, ◌<◌, ◌≡◌, ap₂, ◌∙◌, arith, List, [], ◌∷◌, Bytes, Bool, true, false, bit_and, bit_or, and_byte,
  and_no_byte, or_fields, or-zero, zero-or, and-zero, zero-and, shr, if◌then◌else◌,
}
use coter.Encoding.Binary.{
  bswap16, bswap32, bswap64, bswap16_lanes32, bswap16_lanes64, reverse16_lanes32, reverse16_lanes64,
  shl32, shl64, le_value,
}

-- every entry is a byte
abbrev pub AllBytes : Bytes → Type 0
AllBytes [] = Unit
AllBytes (x ∷ xs) = (x < 256) × AllBytes xs

-- a mask that keeps some bytes, and what it keeps
abbrev mask : List Bool → Bytes
mask [] = []
mask (k ∷ ks) = (if k then 255 else 0) ∷ mask ks

abbrev kept : List Bool → Bytes → Bytes
kept [] xs = []
kept (k ∷ ks) [] = []
kept (k ∷ ks) (x ∷ xs) = (if k then x else 0) ∷ kept ks xs

and_kept :
    (ks : List Bool) (xs : Bytes)
    → AllBytes xs
    → bit_and (le_value xs) (le_value (mask ks)) ≡ le_value (kept ks xs)
and_kept [] xs h = and-zero (le_value xs)
and_kept (k ∷ ks) [] h = zero-and (le_value (mask (k ∷ ks)))
and_kept (true ∷ ks) (x ∷ xs) h =
    ground (arith, and_byte (le_value xs) (le_value (mask ks)) x, and_kept ks xs)
and_kept (false ∷ ks) (x ∷ xs) h =
    ground (arith, and_no_byte (le_value xs) (le_value (mask ks)) x, and_kept ks xs)

-- the bytes of `|`
abbrev join : Bytes → Bytes → Bytes
join [] ys = ys
join (x ∷ xs) [] = x ∷ xs
join (x ∷ xs) (y ∷ ys) = bit_or x y ∷ join xs ys

or_join :
    (xs ys : Bytes)
    → AllBytes xs
    → AllBytes ys
    → bit_or (le_value xs) (le_value ys) ≡ le_value (join xs ys)
or_join [] ys h k = zero-or (le_value ys)
or_join (x ∷ xs) [] h k = or-zero (le_value (x ∷ xs))
or_join (x ∷ xs) (y ∷ ys) h k =
    ground (arith, or_fields 8 (le_value xs) (le_value ys) x y, or_join xs ys h.1 k.1)

-- Two halves that were moved into place, put together.
or_parts :
    (xs ys : Bytes) {u v : ℕ}
    → u ≡ le_value xs
    → v ≡ le_value ys
    → AllBytes xs
    → AllBytes ys
    → bit_or u v ≡ le_value (join xs ys)
or_parts xs ys p q h k = ap₂ bit_or p q ∙ or_join xs ys h k

abbrev pub w4 : ℕ → ℕ → ℕ → ℕ → Bytes
w4 a b c d = a ∷ b ∷ c ∷ d ∷ []

module _ (a b c d : ℕ) (h : AllBytes (w4 a b c d)) where
  abbrev v32 : ℕ
  v32 = le_value (w4 a b c d)

  halves32 :
      bit_or (shl32 (bit_and v32 0x0000FFFF) 16) (shr (bit_and v32 0xFFFF0000) 16)
      ≡ le_value (w4 c d a b)
  halves32 =
      let low = and_kept (true ∷ true ∷ false ∷ false ∷ []) (w4 a b c d) h in
      let high = and_kept (false ∷ false ∷ true ∷ true ∷ []) (w4 a b c d) h in
      or_parts (w4 0 0 a b) (w4 c d 0 0) (omega (arith, low)) (omega (arith, high)) (omega arith)
        (omega arith)
      ∙ simp (zero-or, or-zero)

  pairs32 :
      bit_or (shl32 (bit_and v32 0x00FF00FF) 8) (shr (bit_and v32 0xFF00FF00) 8)
      ≡ le_value (w4 b a d c)
  pairs32 =
      let low = and_kept (true ∷ false ∷ true ∷ false ∷ []) (w4 a b c d) h in
      let high = and_kept (false ∷ true ∷ false ∷ true ∷ []) (w4 a b c d) h in
      or_parts (w4 0 a 0 c) (w4 b 0 d 0) (omega (arith, low)) (omega (arith, high)) (omega arith)
        (omega arith)
      ∙ simp (zero-or, or-zero)

  -- Swapping the bytes of each 16-bit word, on a 32-bit word given by its bytes.
  pub bswap16_lanes32_lem : bswap16_lanes32 v32 ≡ le_value (w4 b a d c)
  unfolding bswap16_lanes32
  bswap16_lanes32_lem =
      let low = and_kept (true ∷ false ∷ true ∷ false ∷ []) (w4 a b c d) h in
      let high = and_kept (false ∷ true ∷ false ∷ true ∷ []) (w4 a b c d) h in
      or_parts (w4 b 0 d 0) (w4 0 a 0 c) (omega (arith, high)) (omega (arith, low)) (omega arith)
        (omega arith)
      ∙ simp (zero-or, or-zero)

  -- Exchanging the two 16-bit words.
  pub reverse16_lanes32_lem : reverse16_lanes32 v32 ≡ le_value (w4 c d a b)
  unfolding reverse16_lanes32
  reverse16_lanes32_lem =
      or_parts (w4 c d 0 0) (w4 0 0 a b) (omega arith) (omega arith) (omega arith) (omega arith)
      ∙ simp (zero-or, or-zero)

-- Reversing the bytes.
pub bswap32_lem :
    (a b c d : ℕ) → AllBytes (w4 a b c d) → bswap32 (le_value (w4 a b c d)) ≡ le_value (w4 d c b a)
unfolding bswap32
bswap32_lem a b c d h = rw (halves32 a b c d h) (pairs32 c d a b (omega arith))

abbrev pub w2 : ℕ → ℕ → Bytes
w2 a b = a ∷ b ∷ []

pub bswap16_lem : (a b : ℕ) → AllBytes (w2 a b) → bswap16 (le_value (w2 a b)) ≡ le_value (w2 b a)
unfolding bswap16
bswap16_lem a b h =
    or_parts (w2 b 0) (w2 0 a) (omega arith) (omega arith) (omega arith) (omega arith)
    ∙ simp (zero-or, or-zero)

abbrev pub w8 : ℕ → ℕ → ℕ → ℕ → ℕ → ℕ → ℕ → ℕ → Bytes
w8 a b c d e f g h = a ∷ b ∷ c ∷ d ∷ e ∷ f ∷ g ∷ h ∷ []

module _ (a b c d e f g i : ℕ) (h : AllBytes (w8 a b c d e f g i)) where
  abbrev v64 : ℕ
  v64 = le_value (w8 a b c d e f g i)

  halves64 :
      bit_or (shl64 (bit_and v64 0x00000000FFFFFFFF) 32) (shr (bit_and v64 0xFFFFFFFF00000000) 32)
      ≡ le_value (w8 e f g i a b c d)
  halves64 =
      let low =
        and_kept (true ∷ true ∷ true ∷ true ∷ false ∷ false ∷ false ∷ false ∷ [])
          (w8 a b c d e f g i) h in
      let high =
        and_kept (false ∷ false ∷ false ∷ false ∷ true ∷ true ∷ true ∷ true ∷ [])
          (w8 a b c d e f g i) h in
      or_parts (w8 0 0 0 0 a b c d) (w8 e f g i 0 0 0 0) (omega (arith, low)) (omega (arith, high))
        (omega arith) (omega arith)
      ∙ simp (zero-or, or-zero)

  words64 :
      bit_or (shl64 (bit_and v64 0x0000FFFF0000FFFF) 16) (shr (bit_and v64 0xFFFF0000FFFF0000) 16)
      ≡ le_value (w8 c d a b g i e f)
  words64 =
      let low =
        and_kept (true ∷ true ∷ false ∷ false ∷ true ∷ true ∷ false ∷ false ∷ [])
          (w8 a b c d e f g i) h in
      let high =
        and_kept (false ∷ false ∷ true ∷ true ∷ false ∷ false ∷ true ∷ true ∷ [])
          (w8 a b c d e f g i) h in
      or_parts (w8 0 0 a b 0 0 e f) (w8 c d 0 0 g i 0 0) (omega (arith, low)) (omega (arith, high))
        (omega arith) (omega arith)
      ∙ simp (zero-or, or-zero)

  pairs64 :
      bit_or (shl64 (bit_and v64 0x00FF00FF00FF00FF) 8) (shr (bit_and v64 0xFF00FF00FF00FF00) 8)
      ≡ le_value (w8 b a d c f e i g)
  pairs64 =
      let low =
        and_kept (true ∷ false ∷ true ∷ false ∷ true ∷ false ∷ true ∷ false ∷ [])
          (w8 a b c d e f g i) h in
      let high =
        and_kept (false ∷ true ∷ false ∷ true ∷ false ∷ true ∷ false ∷ true ∷ [])
          (w8 a b c d e f g i) h in
      or_parts (w8 0 a 0 c 0 e 0 g) (w8 b 0 d 0 f 0 i 0) (omega (arith, low)) (omega (arith, high))
        (omega arith) (omega arith)
      ∙ simp (zero-or, or-zero)

  pub bswap16_lanes64_lem : bswap16_lanes64 v64 ≡ le_value (w8 b a d c f e i g)
  unfolding bswap16_lanes64
  bswap16_lanes64_lem =
      let low =
        and_kept (true ∷ false ∷ true ∷ false ∷ true ∷ false ∷ true ∷ false ∷ [])
          (w8 a b c d e f g i) h in
      let high =
        and_kept (false ∷ true ∷ false ∷ true ∷ false ∷ true ∷ false ∷ true ∷ [])
          (w8 a b c d e f g i) h in
      or_parts (w8 b 0 d 0 f 0 i 0) (w8 0 a 0 c 0 e 0 g) (omega (arith, high)) (omega (arith, low))
        (omega arith) (omega arith)
      ∙ simp (zero-or, or-zero)

pub bswap64_lem :
    (a b c d e f g i : ℕ)
    → AllBytes (w8 a b c d e f g i)
    → bswap64 (le_value (w8 a b c d e f g i)) ≡ le_value (w8 i g f e d c b a)
unfolding bswap64
bswap64_lem a b c d e f g i h =
    rw (halves64 a b c d e f g i h)
      (rw (words64 e f g i a b c d (omega arith)) (pairs64 g i e f c d a b (omega arith)))

pub reverse16_lanes64_lem :
    (a b c d e f g i : ℕ)
    → AllBytes (w8 a b c d e f g i)
    → reverse16_lanes64 (le_value (w8 a b c d e f g i)) ≡ le_value (w8 g i e f c d a b)
unfolding reverse16_lanes64
reverse16_lanes64_lem a b c d e f g i h =
    rw (bswap64_lem a b c d e f g i h) (bswap16_lanes64_lem i g f e d c b a (omega arith))
