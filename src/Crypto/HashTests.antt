-- ===== src/Crypto/HashTests.antt =====
-- Tests of the hash functions.
use coter.Base.{◌+◌, ◌*◌, ◌^◌, ◌%◌, some, ◌≡◌, refl, [], ◌∷◌, Bytes}
use coter.Encoding.Binary.{little, le_get_u64}
use coter.Crypto.Hash.{murmurhash2, murmur_loop, siphash_64, siphash_loop, times33, bkdr}
use coter.Crypto.Hash.Polynomial.{sum_of, hashes_are_sums}

abbrev first_bytes : Bytes
first_bytes = 0 ∷ 1 ∷ 2 ∷ 3 ∷ 4 ∷ 5 ∷ 6 ∷ 7 ∷ 8 ∷ 9 ∷ 10 ∷ 11 ∷ 12 ∷ 13 ∷ 14 ∷ []

-- the test vector of the authors of SipHash-2-4
siphash_of_first_bytes :
    siphash_64 little
      (some first_bytes)
      (0 ∷ 1 ∷ 2 ∷ 3 ∷ 4 ∷ 5 ∷ 6 ∷ 7 ∷ 8 ∷ 9 ∷ 10 ∷ 11 ∷ 12 ∷ 13 ∷ 14 ∷ 15 ∷ [])
    ≡ 11613035633349379557
unfolding siphash_64 siphash_loop le_get_u64
siphash_of_first_bytes = refl

abbrev word_abc : Bytes
word_abc = 97 ∷ 98 ∷ 99 ∷ []

hashes_are_sums_example :
    (times33 (some word_abc) ≡ (5381 * 33 ^ 3 + sum_of 33 word_abc) % 2 ^ 32)
    × (bkdr (some word_abc) ≡ sum_of 131 word_abc % 2 ^ 32)
hashes_are_sums_example = hashes_are_sums word_abc

-- a character of 128 or more hides those behind it in its word
same_murmur : murmurhash2 (some (200 ∷ 1 ∷ 2 ∷ 3 ∷ [])) ≡ murmurhash2 (some (200 ∷ 7 ∷ 8 ∷ 9 ∷ []))
unfolding murmurhash2 murmur_loop
same_murmur = refl
