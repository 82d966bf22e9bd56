-- ===== src/Crypto/Sha1/Rounds.antt =====
-- crypto/src/sha1.c, sha1_transform: the steps on one block.
--
-- A step names its macro and its number. The registers go round, as in Crypto/Md5/Rounds.antt. `host` is
-- the byte order of the machine.
use coter.Base.{
  ℕ, zero, suc, ◌+◌, ◌-◌, ◌*◌, ◌/◌, ◌%◌, ◌^◌, List, [], ◌∷◌, Bytes, drop, get_or, bit_or, bit_and,
}
use coter.Encoding.Binary.{Endian, little, big, load}
use Prim.Native.Nat.{bit_xor}

abbrev word : ℕ → ℕ
word n = n % 2 ^ 32

-- `SHA1_ROL`
abbrev rol : ℕ → ℕ → ℕ
rol s n = bit_or (word (n * 2 ^ s)) (n / 2 ^ (32 - s))

abbrev pub Registers : Type 0
Registers = ℕ × ℕ × ℕ × ℕ × ℕ

-- the macros SHA1_R0 to SHA1_R4
pub data Macro : Type 0 where
  r0 r1 r2 r3 r4 : Macro

-- so many words of the block
abbrev load_words : Endian → ℕ → Bytes → List ℕ
load_words host zero b = []
load_words host (suc n) b = load host 4 b 0 ∷ load_words host n (drop 4 b)

abbrev at : List ℕ → ℕ → ℕ
at l i = get_or l i 0

abbrev set : List ℕ → ℕ → ℕ → List ℕ
set [] i v = []
set (x ∷ l) zero v = v ∷ l
set (x ∷ l) (suc i) v = x ∷ set l i v

-- `SHA1_BLK0` and `SHA1_BLK`: the words after the assignment
abbrev blk0 : Endian → List ℕ → ℕ → List ℕ
blk0 little l i =
    set l i (bit_or (bit_and (rol 24 (at l i)) 4278255360) (bit_and (rol 8 (at l i)) 16711935))
blk0 big l i = l

abbrev blk : List ℕ → ℕ → List ℕ
blk l i = set l (bit_and i 15) (
    rol 1 (
      bit_xor
        (bit_xor (bit_xor (at l (bit_and (i + 13) 15)) (at l (bit_and (i + 8) 15)))
          (at l (bit_and (i + 2) 15)))
        (at l (bit_and i 15))))

abbrev expand : Endian → Macro → List ℕ → ℕ → List ℕ
expand host r0 l i = blk0 host l i
expand host _ l i = blk l i

abbrev mix : Macro → ℕ → ℕ → ℕ → ℕ
mix r0 w x y = bit_xor (bit_and w (bit_xor x y)) y
mix r1 w x y = bit_xor (bit_and w (bit_xor x y)) y
mix r2 w x y = bit_xor (bit_xor w x) y
mix r3 w x y = bit_or (bit_and (bit_or w x) y) (bit_and w x)
mix r4 w x y = bit_xor (bit_xor w x) y

abbrev constant : Macro → ℕ
constant r0 = 1518500249
constant r1 = 1518500249
constant r2 = 1859775393
constant r3 = 2400959708
constant r4 = 3395469782

-- one macro, and the registers in the order in which the next one takes them
abbrev step : Macro → ℕ → List ℕ → Registers → Registers
step m i l (v, w, x, y, z) =
    (word (z + mix m w x y + at l (bit_and i 15) + constant m + rol 5 v), v, rol 30 w, x, y)

-- So many calls of one macro, from the number `i` on.
unfoldable pub steps : Endian → Macro → ℕ → ℕ → List ℕ × Registers → List ℕ × Registers
steps host m zero i s = s
steps host m (suc n) i (l, r) =
    let l' = expand host m l i in steps host m n (suc i) (l', step m i l' r)

unfoldable pub transform : Endian → Registers → Bytes → Registers
unfolding steps
transform host (a, b, c, d, e) buffer =
    let begin =
      steps host r1 4 16 (steps host r0 16 0 (load_words host 16 buffer, (a, b, c, d, e))) in
    let (_, (a', b', c', d', e')) =
      steps host r4 20 60 (steps host r3 20 40 (steps host r2 20 20 begin)) in
    (word (a + a'), word (b + b'), word (c + c'), word (d + d'), word (e + e'))
