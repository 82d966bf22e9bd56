-- ===== src/Crypto/Hash/Polynomial.antt =====
-- The sums behind the hash functions that multiply by a constant.
use coter.Base.{ℕ, ◌+◌, ◌*◌, ◌%◌, ◌^◌, ◌≡◌, sym, ap, ◌∙◌, arith, some, [], ◌∷◌, Bytes, length}
use native.Mathlib.Nat.{pow-suc}
use coter.Crypto.Hash.{char_word, times33, times33_loop, bkdr, bkdr_loop}

-- the sum of the characters, each times the power of the base that the characters behind it make
abbrev pub sum_of : ℕ → Bytes → ℕ
sum_of base [] = 0
sum_of base (c ∷ s) = char_word c * base ^ length s + sum_of base s

power : (base hash c p s : ℕ) → (hash * base + c) * p + s ≡ hash * (p * base) + (c * p + s)
power base hash c p s = grind arith

times33_loop_lem :
    (hash : ℕ) (s : Bytes)
    → times33_loop (hash % 2 ^ 32) s ≡ (hash * 33 ^ length s + sum_of 33 s) % 2 ^ 32
unfolding times33_loop
times33_loop_lem hash [] = omega arith
times33_loop_lem hash (c ∷ s) =
    let next : ((hash % 2 ^ 32 * 2 ^ 5 % 2 ^ 32 + hash % 2 ^ 32) % 2 ^ 32 + char_word c) % 2 ^ 32
        ≡ (hash * 33 + char_word c) % 2 ^ 32 =
      omega arith in
    ap (λ (h : ℕ). times33_loop h s) next
    ∙ times33_loop_lem (hash * 33 + char_word c) s
    ∙ ap (λ (n : ℕ). n % 2 ^ 32)
        (power 33 hash (char_word c) (33 ^ length s) (sum_of 33 s)
          ∙ ap (λ (p : ℕ). hash * p + sum_of 33 (c ∷ s)) (sym (pow-suc 33 (length s))))

bkdr_loop_lem :
    (hash : ℕ) (s : Bytes)
    → bkdr_loop (hash % 2 ^ 32) s ≡ (hash * 131 ^ length s + sum_of 131 s) % 2 ^ 32
unfolding bkdr_loop
bkdr_loop_lem hash [] = omega arith
bkdr_loop_lem hash (c ∷ s) =
    let next : (hash % 2 ^ 32 * 131 % 2 ^ 32 + char_word c) % 2 ^ 32
        ≡ (hash * 131 + char_word c) % 2 ^ 32 =
      omega arith in
    ap (λ (h : ℕ). bkdr_loop h s) next
    ∙ bkdr_loop_lem (hash * 131 + char_word c) s
    ∙ ap (λ (n : ℕ). n % 2 ^ 32)
        (power 131 hash (char_word c) (131 ^ length s) (sum_of 131 s)
          ∙ ap (λ (p : ℕ). hash * p + sum_of 131 (c ∷ s)) (sym (pow-suc 131 (length s))))

-- The hashes times33 and BKDR of a block are sums modulo 2 ^ 32: each character, as it is converted, times
-- 33 or 131 to the number of characters behind it, and for times33 the start value 5381 times 33 to
-- the number of all.
pub hashes_are_sums :
    (s : Bytes)
    → (times33 (some s) ≡ (5381 * 33 ^ length s + sum_of 33 s) % 2 ^ 32)
      × (bkdr (some s) ≡ sum_of 131 s % 2 ^ 32)
unfolding times33 bkdr
hashes_are_sums s =
    (times33_loop_lem 5381 s, bkdr_loop_lem 0 s ∙ ap (λ (n : ℕ). n % 2 ^ 32) (omega arith))
