-- ===== src/Crypto/Sha1Tests.antt =====
-- Tests of SHA-1.
use coter.Base.{
  some, none, splice, arith, length, length-replicate, List, Bytes, ℕ, ◌+◌, ◌^◌, ◌≤◌, replicate,
  ◌≡◌, refl, [], ◌∷◌,
}
use coter.Encoding.Binary.{little}
use coter.Crypto.Sha1.{start, and_then, sum, update, init, finish, blocks, pad_loop}
use coter.Crypto.Sha1.Loop.{blocks_never_end}
use coter.Crypto.Sha1.Digest.{digest, update_all, joined, sha1_of_pieces}
use coter.Crypto.Sha1.Rounds.{transform, steps}

abc_digest :
    sum little (replicate 64 7) (97 ∷ 98 ∷ 99 ∷ [])
    ≡ some (
        169 ∷ 153 ∷ 62 ∷ 54 ∷ 71 ∷ 6 ∷ 129 ∷ 106 ∷ 186 ∷ 62 ∷ 37 ∷ 113 ∷ 120 ∷ 80 ∷ 194 ∷ 108 ∷ 156
        ∷ 208 ∷ 216 ∷ 157 ∷ [])
unfolding sum update init finish blocks pad_loop transform steps splice
abc_digest = refl

abbrev two_pieces : List Bytes
two_pieces = (97 ∷ []) ∷ (98 ∷ 99 ∷ []) ∷ []

sha1_of_pieces_example :
    and_then (update_all little (init (replicate 64 7)) two_pieces) (finish little)
    ≡ some (digest little (joined two_pieces))
sha1_of_pieces_example =
    sha1_of_pieces little (replicate 64 7) two_pieces refl (omega arith, (omega arith, tt))

unfoldable zero_bytes : ℕ → Bytes
zero_bytes n = replicate n 0

length-zero_bytes : (n : ℕ) → 2 ^ 32 + 64 ≤ n → 2 ^ 32 + 64 ≤ length (zero_bytes n)
unfolding zero_bytes
length-zero_bytes n h = omega (arith, length-replicate {A = ℕ} n 0)

huge_size : 2 ^ 32 + 64 ≤ length (zero_bytes (2 ^ 33))
huge_size = length-zero_bytes (2 ^ 33) (omega arith)

blocks_never_end_example : blocks little 5 start (zero_bytes (2 ^ 33)) 64 ≡ none
blocks_never_end_example =
    blocks_never_end little 5 start (zero_bytes (2 ^ 33)) 64 huge_size (omega arith)
