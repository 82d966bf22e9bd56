-- ===== src/Bytes/ByteBuffer/Layout.antt =====
-- How a word lies in memory for every byte order and word swap, and that loading undoes storing.
use mathlib.Core.List.{reverse}
use coter.Base.{
  ℕ, ◌/◌, ◌%◌, ◌<◌, ◌^◌, ◌≡◌, refl, sym, ap, ◌∙◌, arith, Bool, true, false, [], ◌∷◌, Bytes, length,
}
use coter.Encoding.Binary.{Endian, big, little, in_memory, from_memory, le_bytes, le_value}
use coter.Encoding.Binary.Swap.{
  AllBytes, w2, w4, w8, bswap16_lem, bswap32_lem, bswap64_lem, bswap16_lanes32_lem,
  bswap16_lanes64_lem, reverse16_lanes32_lem, reverse16_lanes64_lem,
}
use coter.Encoding.Binary.Store.{bytes_of, le_value2, le_value4, le_value8}
use coter.Bytes.ByteBuffer.Words.{order16, order32, order64}

-- the bytes of each 16-bit word exchanged
abbrev pub swap_pairs : Bytes → Bytes
swap_pairs [] = []
swap_pairs (a ∷ []) = a ∷ []
swap_pairs (a ∷ b ∷ xs) = b ∷ a ∷ swap_pairs xs

-- The order in which the bytes of a word, the lowest first, stand in the buffer.
abbrev pub layout : Endian → Bool → Bytes → Bytes
layout little false xs = xs
layout little true xs = swap_pairs xs
layout big false xs = reverse xs
layout big true xs = swap_pairs (reverse xs)

-- A 16-bit word given by its bytes, as it is stored and as it is loaded.
stored16 :
    (host e : Endian) (h : Bool) (a b : ℕ)
    → AllBytes (w2 a b)
    → in_memory host 2 (order16 host e h (le_value (w2 a b))) ≡ layout e false (w2 a b)
stored16 little little h a b b0 = bytes_of (w2 a b) (omega arith) refl refl
stored16 little big h a b b0 = bytes_of (w2 b a) (omega arith) refl (bswap16_lem a b b0)
stored16 big little h a b b0 =
    ap reverse (bytes_of (w2 b a) (omega arith) refl (bswap16_lem a b b0))
stored16 big big h a b b0 = ap reverse (bytes_of (w2 a b) (omega arith) refl refl)

loaded16 :
    (host e : Endian) (h : Bool) (a b : ℕ)
    → AllBytes (w2 a b)
    → order16 host e h (from_memory host (layout e false (w2 a b))) ≡ le_value (w2 a b)
loaded16 little little h a b b0 = refl
loaded16 little big h a b b0 = bswap16_lem b a (omega arith)
loaded16 big little h a b b0 = bswap16_lem b a (omega arith)
loaded16 big big h a b b0 = refl

-- A 32-bit word given by its bytes, as it is stored and as it is loaded.
stored32 :
    (host e : Endian) (h : Bool) (a b c d : ℕ)
    → AllBytes (w4 a b c d)
    → in_memory host 4 (order32 host e h (le_value (w4 a b c d))) ≡ layout e h (w4 a b c d)
stored32 little little false a b c d b0 = bytes_of (w4 a b c d) (omega arith) refl refl
stored32 little little true a b c d b0 =
    bytes_of (w4 b a d c) (omega arith) refl (bswap16_lanes32_lem a b c d b0)
stored32 little big false a b c d b0 =
    bytes_of (w4 d c b a) (omega arith) refl (bswap32_lem a b c d b0)
stored32 little big true a b c d b0 =
    bytes_of (w4 c d a b) (omega arith) refl (reverse16_lanes32_lem a b c d b0)
stored32 big little false a b c d b0 =
    ap reverse (bytes_of (w4 d c b a) (omega arith) refl (bswap32_lem a b c d b0))
stored32 big little true a b c d b0 =
    ap reverse (bytes_of (w4 c d a b) (omega arith) refl (reverse16_lanes32_lem a b c d b0))
stored32 big big false a b c d b0 = ap reverse (bytes_of (w4 a b c d) (omega arith) refl refl)
stored32 big big true a b c d b0 =
    ap reverse (bytes_of (w4 b a d c) (omega arith) refl (bswap16_lanes32_lem a b c d b0))

loaded32 :
    (host e : Endian) (h : Bool) (a b c d : ℕ)
    → AllBytes (w4 a b c d)
    → order32 host e h (from_memory host (layout e h (w4 a b c d))) ≡ le_value (w4 a b c d)
loaded32 little little false a b c d b0 = refl
loaded32 little little true a b c d b0 = bswap16_lanes32_lem b a d c (omega arith)
loaded32 little big false a b c d b0 = bswap32_lem d c b a (omega arith)
loaded32 little big true a b c d b0 = reverse16_lanes32_lem c d a b (omega arith)
loaded32 big little false a b c d b0 = bswap32_lem d c b a (omega arith)
loaded32 big little true a b c d b0 = reverse16_lanes32_lem c d a b (omega arith)
loaded32 big big false a b c d b0 = refl
loaded32 big big true a b c d b0 = bswap16_lanes32_lem b a d c (omega arith)

-- A 64-bit word given by its bytes, as it is stored and as it is loaded.
stored64 :
    (host e : Endian) (h : Bool) (a b c d p q r x : ℕ)
    → AllBytes (w8 a b c d p q r x)
    → in_memory host 8 (order64 host e h (le_value (w8 a b c d p q r x)))
      ≡ layout e h (w8 a b c d p q r x)
stored64 little little false a b c d p q r x b0 =
    bytes_of (w8 a b c d p q r x) (omega arith) refl refl
stored64 little little true a b c d p q r x b0 =
    bytes_of (w8 b a d c q p x r) (omega arith) refl (bswap16_lanes64_lem a b c d p q r x b0)
stored64 little big false a b c d p q r x b0 =
    bytes_of (w8 x r q p d c b a) (omega arith) refl (bswap64_lem a b c d p q r x b0)
stored64 little big true a b c d p q r x b0 =
    bytes_of (w8 r x p q c d a b) (omega arith) refl (reverse16_lanes64_lem a b c d p q r x b0)
stored64 big little false a b c d p q r x b0 =
    ap reverse (bytes_of (w8 x r q p d c b a) (omega arith) refl (bswap64_lem a b c d p q r x b0))
stored64 big little true a b c d p q r x b0 =
    ap reverse
      (bytes_of (w8 r x p q c d a b) (omega arith) refl (reverse16_lanes64_lem a b c d p q r x b0))
stored64 big big false a b c d p q r x b0 =
    ap reverse (bytes_of (w8 a b c d p q r x) (omega arith) refl refl)
stored64 big big true a b c d p q r x b0 =
    ap reverse
      (bytes_of (w8 b a d c q p x r) (omega arith) refl (bswap16_lanes64_lem a b c d p q r x b0))

loaded64 :
    (host e : Endian) (h : Bool) (a b c d p q r x : ℕ)
    → AllBytes (w8 a b c d p q r x)
    → order64 host e h (from_memory host (layout e h (w8 a b c d p q r x)))
      ≡ le_value (w8 a b c d p q r x)
loaded64 little little false a b c d p q r x b0 = refl
loaded64 little little true a b c d p q r x b0 = bswap16_lanes64_lem b a d c q p x r (omega arith)
loaded64 little big false a b c d p q r x b0 = bswap64_lem x r q p d c b a (omega arith)
loaded64 little big true a b c d p q r x b0 = reverse16_lanes64_lem r x p q c d a b (omega arith)
loaded64 big little false a b c d p q r x b0 = bswap64_lem x r q p d c b a (omega arith)
loaded64 big little true a b c d p q r x b0 = reverse16_lanes64_lem r x p q c d a b (omega arith)
loaded64 big big false a b c d p q r x b0 = refl
loaded64 big big true a b c d p q r x b0 = bswap16_lanes64_lem b a d c q p x r (omega arith)

-- Accesses of `n` bytes that store the words below `bound` by a layout and read them back.
pub record HasLayout (host : Endian) (n bound : ℕ) (order : Endian → Bool → ℕ → ℕ)
    (shape : Endian → Bool → Bytes → Bytes) : Type 0 where
  pub sized : (e : Endian) (h : Bool) (v : ℕ) → n ≡ length (shape e h (le_bytes n v))
  pub stored :
      (e : Endian) (h : Bool) (v : ℕ)
      → v < bound
      → in_memory host n (order e h v) ≡ shape e h (le_bytes n v)
  pub loaded :
      (e : Endian) (h : Bool) (v : ℕ)
      → v < bound
      → order e h (from_memory host (shape e h (le_bytes n v))) ≡ v

abbrev pub plain : Endian → Bool → Bytes → Bytes
plain e h = layout e false

pub order16-HasLayout : (host : Endian) → HasLayout host 2 (2 ^ 16) (order16 host) plain
order16-HasLayout host = record {
  sized = λ e h v. size e h v;
  stored = λ e h v p.
      ap (λ u. in_memory host 2 (order16 host e h u)) (sym (le_value2 v p))
      ∙ stored16 host e h (v % 256) (v / 256 % 256) (omega arith);
  loaded = λ e h v p. loaded16 host e h (v % 256) (v / 256 % 256) (omega arith) ∙ le_value2 v p;
}
  where
    size : (e : Endian) (h : Bool) (v : ℕ) → 2 ≡ length (plain e h (le_bytes 2 v))
    size little h v = refl
    size big h v = refl

pub order32-HasLayout : (host : Endian) → HasLayout host 4 (2 ^ 32) (order32 host) layout
order32-HasLayout host = record {
  sized = λ e h v. size e h v;
  stored = λ e h v p.
      ap (λ u. in_memory host 4 (order32 host e h u)) (sym (le_value4 v p))
      ∙ stored32 host e h (v % 256) (v / 256 % 256) (v / 256 / 256 % 256)
          (v / 256 / 256 / 256 % 256) (omega arith);
  loaded = λ e h v p.
      loaded32 host e h (v % 256) (v / 256 % 256) (v / 256 / 256 % 256) (v / 256 / 256 / 256 % 256)
        (omega arith)
      ∙ le_value4 v p;
}
  where
    size : (e : Endian) (h : Bool) (v : ℕ) → 4 ≡ length (layout e h (le_bytes 4 v))
    size little false v = refl
    size little true v = refl
    size big false v = refl
    size big true v = refl

pub order64-HasLayout : (host : Endian) → HasLayout host 8 (2 ^ 64) (order64 host) layout
order64-HasLayout host = record {
  sized = λ e h v. size e h v;
  stored = λ e h v p.
      ap (λ u. in_memory host 8 (order64 host e h u)) (sym (le_value8 v p))
      ∙ stored64 host e h (v % 256) (v / 256 % 256) (v / 256 / 256 % 256)
          (v / 256 / 256 / 256 % 256) (v / 256 / 256 / 256 / 256 % 256)
          (v / 256 / 256 / 256 / 256 / 256 % 256) (v / 256 / 256 / 256 / 256 / 256 / 256 % 256)
          (v / 256 / 256 / 256 / 256 / 256 / 256 / 256 % 256) (omega arith);
  loaded = λ e h v p.
      loaded64 host e h (v % 256) (v / 256 % 256) (v / 256 / 256 % 256) (v / 256 / 256 / 256 % 256)
        (v / 256 / 256 / 256 / 256 % 256) (v / 256 / 256 / 256 / 256 / 256 % 256)
        (v / 256 / 256 / 256 / 256 / 256 / 256 % 256)
        (v / 256 / 256 / 256 / 256 / 256 / 256 / 256 % 256) (omega arith)
      ∙ le_value8 v p;
}
  where
    size : (e : Endian) (h : Bool) (v : ℕ) → 8 ≡ length (layout e h (le_bytes 8 v))
    size little false v = refl
    size little true v = refl
    size big false v = refl
    size big true v = refl
