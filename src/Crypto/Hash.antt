-- ===== src/Crypto/Hash.antt =====
-- crypto/src/hash/hash.c: hash functions on blocks of memory.
--
-- A char is taken to be signed, as in the conversions of `data[i]`. The words that MurmurHash2 of 64
-- bits reads directly are in the order of the machine, `host`.
pub mod Polynomial
use coter.Base.{
  ℕ, zero, suc, ◌+◌, ◌-◌, ◌*◌, ◌/◌, ◌%◌, ◌^◌, ◌==◌, Bool, true, false, Option, none, some, List, [],
  ◌∷◌, Bytes, length, take, drop, ltb, if◌then◌else◌, bit_or, bit_and,
}
use coter.Encoding.Binary.{Endian, load, le_get_u64}
use Prim.Native.Nat.{bit_xor}

abbrev pub word : ℕ → ℕ
word n = n % 2 ^ 32

abbrev pub long : ℕ → ℕ
long n = n % 2 ^ 64

-- a char as a `uint32_t`
abbrev pub char_word : ℕ → ℕ
char_word c = if ltb c 128 then c else word (c + (2 ^ 32 - 256))

-- The loops of the first three functions.
unfoldable pub times33_loop : ℕ → Bytes → ℕ
times33_loop hash [] = hash
times33_loop hash (c ∷ s) = times33_loop (word (word (word (hash * 2 ^ 5) + hash) + char_word c)) s

unfoldable pub bkdr_loop : ℕ → Bytes → ℕ
bkdr_loop hash [] = hash
bkdr_loop hash (c ∷ s) = bkdr_loop (word (word (hash * 131) + char_word c)) s

abbrev pub pjw_step : ℕ → ℕ → ℕ
pjw_step val c =
    let sum = word (word (val * 2 ^ 4) + char_word c) in
    let tmp = bit_and sum 4026531840 in
    if tmp == 0 then sum else bit_xor (bit_xor sum (tmp / 2 ^ 24)) tmp

unfoldable pub pjw_loop : ℕ → Bytes → ℕ
pjw_loop val [] = val
pjw_loop val (c ∷ s) = pjw_loop (pjw_step val c) s

-- The result for a null pointer is 0.
abbrev pub or_null : (Bytes → ℕ) → Option Bytes → ℕ
or_null f none = 0
or_null f (some s) = f s

unfoldable pub times33 : Option Bytes → ℕ
unfolding times33_loop
times33 = or_null (times33_loop 5381)

unfoldable pub bkdr : Option Bytes → ℕ
unfolding bkdr_loop
bkdr = or_null (bkdr_loop 0)

unfoldable pub pjw : Option Bytes → ℕ
unfolding pjw_loop
pjw = or_null (pjw_loop 0)

abbrev pub m32 : ℕ
m32 = 1540483477

abbrev pub shift_left : ℕ → ℕ → ℕ
shift_left n k = word (n * 2 ^ k)

abbrev pub murmur_word : ℕ → ℕ → ℕ → ℕ → ℕ
murmur_word a b c d =
    bit_or
      (bit_or (bit_or (char_word a) (shift_left (char_word b) 8)) (shift_left (char_word c) 16))
      (shift_left (char_word d) 24)

abbrev pub scramble : ℕ → ℕ
scramble k = let k' = word (k * m32) in word (bit_xor k' (k' / 2 ^ 24) * m32)

abbrev pub murmur_tail : ℕ → ℕ
murmur_tail h =
    let h1 = bit_xor h (h / 2 ^ 13) in let h2 = word (h1 * m32) in bit_xor h2 (h2 / 2 ^ 15)

-- The loop over four bytes at a time, and the switch on those left.
unfoldable pub murmur_loop : ℕ → Bytes → ℕ
murmur_loop h (a ∷ b ∷ c ∷ d ∷ s) =
    murmur_loop (bit_xor (word (h * m32)) (scramble (murmur_word a b c d))) s
murmur_loop h (a ∷ b ∷ c ∷ []) = word (
    bit_xor (bit_xor (bit_xor h (shift_left (char_word c) 16)) (shift_left (char_word b) 8))
      (char_word a)
    * m32)
murmur_loop h (a ∷ b ∷ []) =
    word (bit_xor (bit_xor h (shift_left (char_word b) 8)) (char_word a) * m32)
murmur_loop h (a ∷ []) = word (bit_xor h (char_word a) * m32)
murmur_loop h [] = h

unfoldable pub murmurhash2 : Option Bytes → ℕ
unfolding murmur_loop
murmurhash2 = or_null (λ s. murmur_tail (murmur_loop (word (length s)) s))

abbrev pub m64 : ℕ
m64 = 14313749767032793493

abbrev pub scramble_64 : ℕ → ℕ
scramble_64 k = let k' = long (k * m64) in long (bit_xor k' (k' / 2 ^ 47) * m64)

-- The loop over so many words of 8 bytes.
unfoldable pub murmur_loop_64 : Endian → ℕ → ℕ → Bytes → ℕ
murmur_loop_64 host zero h s = h
murmur_loop_64 host (suc n) h s =
    murmur_loop_64 host n (long (bit_xor h (scramble_64 (load host 8 s 0)) * m64)) (drop 8 s)

-- the bytes left, each at its place in a word
abbrev pub mixed : ℕ → ℕ → Bytes → ℕ
mixed h place [] = h
mixed h place (c ∷ s) = mixed (bit_xor h (c * place)) (place * 2 ^ 8) s

abbrev pub murmur_rest_64 : ℕ → Bytes → ℕ
murmur_rest_64 h [] = h
murmur_rest_64 h (c ∷ s) = long (mixed h 1 (c ∷ s) * m64)

abbrev pub murmur_tail_64 : ℕ → ℕ
murmur_tail_64 h = let h' = long (bit_xor h (h / 2 ^ 47) * m64) in bit_xor h' (h' / 2 ^ 47)

unfoldable pub murmurhash2_64 : Endian → Option Bytes → ℕ → ℕ
unfolding murmur_loop_64
murmurhash2_64 host s seed =
    or_null
      (λ b.
        let words = length b / 8 in
        murmur_tail_64 (
          murmur_rest_64 (murmur_loop_64 host words (bit_xor seed (long (length b * m64))) b)
            (drop (words * 8) b)))
      s

abbrev pub Vectors : Type 0
Vectors = ℕ × ℕ × ℕ × ℕ

abbrev pub rotate_64 : ℕ → ℕ → ℕ
rotate_64 x b = bit_or (long (x * 2 ^ b)) (x / 2 ^ (64 - b))

-- `HALF_ROUND`, on the four variables in its order
abbrev pub half_round : ℕ → ℕ → Vectors → Vectors
half_round s t (a, b, c, d) =
    let a' = long (a + b) in
    let c' = long (c + d) in
    (rotate_64 a' 32, bit_xor (rotate_64 b s) a', c', bit_xor (rotate_64 d t) c')

-- every second one has the first and the third exchanged
abbrev pub crossed : Vectors → Vectors
crossed (a, b, c, d) = (c, b, a, d)

abbrev pub round : Vectors → Vectors
round v = crossed (half_round 17 21 (crossed (half_round 13 16 v)))

abbrev pub double_round : Vectors → Vectors
double_round v = round (round v)

abbrev pub mix_in : ℕ → Vectors → Vectors
mix_in m (v0, v1, v2, v3) =
    let (w0, w1, w2, w3) = double_round (v0, v1, v2, bit_xor v3 m) in (bit_xor w0 m, w1, w2, w3)

unfoldable pub siphash_loop : Endian → ℕ → Vectors → Bytes → Vectors
siphash_loop host zero v s = v
siphash_loop host (suc n) v s = siphash_loop host n (mix_in (le_get_u64 host s 0) v) (drop 8 s)

-- the bytes left in `t`, which is 0 before
abbrev pub filled : ℕ → Bytes → Bytes
filled zero s = []
filled (suc n) [] = 0 ∷ filled n []
filled (suc n) (c ∷ s) = c ∷ filled n s

abbrev pub siphash_end : Vectors → ℕ
siphash_end (v0, v1, v2, v3) =
    let (w0, w1, w2, w3) = double_round (double_round (v0, v1, bit_xor v2 255, v3)) in
    bit_xor (bit_xor w0 w1) (bit_xor w2 w3)

unfoldable pub siphash_64 : Endian → Option Bytes → Bytes → ℕ
unfolding siphash_loop
siphash_64 host s keys =
    let k0 = le_get_u64 host keys 0 in
    let k1 = le_get_u64 host (drop 8 keys) 0 in
    let keyed : Vectors = (
      bit_xor 8317987319222330741 k0,
      bit_xor 7237128888997146477 k1,
      bit_xor 7816392313619706465 k0,
      bit_xor 8387220255154660723 k1,
    ) in
    or_null
      (λ b.
        let words = length b / 8 in
        let last =
          bit_or (long (length b * 2 ^ 56)) (le_get_u64 host (filled 8 (drop (words * 8) b)) 0) in
        siphash_end (mix_in last (siphash_loop host words keyed b)))
      s
