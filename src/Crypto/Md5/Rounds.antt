-- ===== src/Crypto/Md5/Rounds.antt =====
-- crypto/src/md5.c, md5_transform: the steps on one block.
--
-- A step names its function, the word of the block, the constant and the number of places. The code
-- writes the four registers in the order of each step's use; here they go round instead.
use coter.Base.{
  ℕ, ◌+◌, ◌-◌, ◌*◌, ◌/◌, ◌%◌, ◌^◌, List, [], ◌∷◌, ◌++◌, Bytes, get_or, bit_or, bit_and,
}
use Prim.Native.Nat.{bit_xor}

pub data Mix : Type 0 where
  f1 f2 f3 f4 : Mix

abbrev word : ℕ → ℕ
word n = n % 2 ^ 32

abbrev not_word : ℕ → ℕ
not_word n = 2 ^ 32 - 1 - n

abbrev rotate : ℕ → ℕ → ℕ
rotate s n = bit_or (word (n * 2 ^ s)) (n / 2 ^ (32 - s))

-- the macros F1 to F4
abbrev mix : Mix → ℕ → ℕ → ℕ → ℕ
mix f1 x y z = bit_xor z (bit_and x (bit_xor y z))
mix f2 x y z = bit_xor y (bit_and z (bit_xor x y))
mix f3 x y z = bit_xor x (bit_xor y z)
mix f4 x y z = bit_xor y (bit_or x (not_word z))

abbrev pub Registers : Type 0
Registers = ℕ × ℕ × ℕ × ℕ

abbrev pub Step : Type 0
Step = Mix × ℕ × ℕ × ℕ

-- `md5_load_le32`
abbrev load_le32 : Bytes → ℕ → ℕ
load_le32 b p =
    bit_or
      (bit_or (bit_or (get_or b p 0) (get_or b (p + 1) 0 * 2 ^ 8)) (get_or b (p + 2) 0 * 2 ^ 16))
      (get_or b (p + 3) 0 * 2 ^ 24)

-- `MD5STEP`, and the registers in the order in which the next step takes them
abbrev step : Bytes → Step → Registers → Registers
step block (f, i, constant, s) (w, x, y, z) =
    let added = word (w + word (mix f x y z + word (load_le32 block (i * 4) + constant))) in
    (z, word (rotate s added + x), x, y)

unfoldable pub steps : List Step → Bytes → Registers → Registers
steps [] block r = r
steps (s ∷ rest) block r = steps rest block (step block s r)

abbrev round_1 : List Step
round_1 =
    (f1, 0, 3614090360, 7)
    ∷ (f1, 1, 3905402710, 12)
    ∷ (f1, 2, 606105819, 17)
    ∷ (f1, 3, 3250441966, 22)
    ∷ (f1, 4, 4118548399, 7)
    ∷ (f1, 5, 1200080426, 12)
    ∷ (f1, 6, 2821735955, 17)
    ∷ (f1, 7, 4249261313, 22)
    ∷ (f1, 8, 1770035416, 7)
    ∷ (f1, 9, 2336552879, 12)
    ∷ (f1, 10, 4294925233, 17)
    ∷ (f1, 11, 2304563134, 22)
    ∷ (f1, 12, 1804603682, 7)
    ∷ (f1, 13, 4254626195, 12)
    ∷ (f1, 14, 2792965006, 17)
    ∷ (f1, 15, 1236535329, 22)
    ∷ []

abbrev round_2 : List Step
round_2 =
    (f2, 1, 4129170786, 5)
    ∷ (f2, 6, 3225465664, 9)
    ∷ (f2, 11, 643717713, 14)
    ∷ (f2, 0, 3921069994, 20)
    ∷ (f2, 5, 3593408605, 5)
    ∷ (f2, 10, 38016083, 9)
    ∷ (f2, 15, 3634488961, 14)
    ∷ (f2, 4, 3889429448, 20)
    ∷ (f2, 9, 568446438, 5)
    ∷ (f2, 14, 3275163606, 9)
    ∷ (f2, 3, 4107603335, 14)
    ∷ (f2, 8, 1163531501, 20)
    ∷ (f2, 13, 2850285829, 5)
    ∷ (f2, 2, 4243563512, 9)
    ∷ (f2, 7, 1735328473, 14)
    ∷ (f2, 12, 2368359562, 20)
    ∷ []

abbrev round_3 : List Step
round_3 =
    (f3, 5, 4294588738, 4)
    ∷ (f3, 8, 2272392833, 11)
    ∷ (f3, 11, 1839030562, 16)
    ∷ (f3, 14, 4259657740, 23)
    ∷ (f3, 1, 2763975236, 4)
    ∷ (f3, 4, 1272893353, 11)
    ∷ (f3, 7, 4139469664, 16)
    ∷ (f3, 10, 3200236656, 23)
    ∷ (f3, 13, 681279174, 4)
    ∷ (f3, 0, 3936430074, 11)
    ∷ (f3, 3, 3572445317, 16)
    ∷ (f3, 6, 76029189, 23)
    ∷ (f3, 9, 3654602809, 4)
    ∷ (f3, 12, 3873151461, 11)
    ∷ (f3, 15, 530742520, 16)
    ∷ (f3, 2, 3299628645, 23)
    ∷ []

abbrev round_4 : List Step
round_4 =
    (f4, 0, 4096336452, 6)
    ∷ (f4, 7, 1126891415, 10)
    ∷ (f4, 14, 2878612391, 15)
    ∷ (f4, 5, 4237533241, 21)
    ∷ (f4, 12, 1700485571, 6)
    ∷ (f4, 3, 2399980690, 10)
    ∷ (f4, 10, 4293915773, 15)
    ∷ (f4, 1, 2240044497, 21)
    ∷ (f4, 8, 1873313359, 6)
    ∷ (f4, 15, 4264355552, 10)
    ∷ (f4, 6, 2734768916, 15)
    ∷ (f4, 13, 1309151649, 21)
    ∷ (f4, 4, 4149444226, 6)
    ∷ (f4, 11, 3174756917, 10)
    ∷ (f4, 2, 718787259, 15)
    ∷ (f4, 9, 3951481745, 21)
    ∷ []

-- `md5_transform`
unfoldable pub transform : Registers → Bytes → Registers
unfolding steps
transform (a, b, c, d) block =
    let (a', b', c', d') =
      steps (round_1 ++ (round_2 ++ (round_3 ++ round_4))) block (a, b, c, d) in
    (word (a + a'), word (b + b'), word (c + c'), word (d + d'))
