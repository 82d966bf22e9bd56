-- ===== src/Crypto/Blocks.antt =====
-- Messages in blocks of 64 bytes, as the digests of crypto/ take them: each block goes through a
-- transformation of the registers, and the bytes behind the last whole block wait in a buffer.
use coter.Base.{
  ℕ, zero, suc, ◌+◌, ◌*◌, ◌≤◌, ◌<◌, ◌≡◌, refl, sym, ap, ap₂, ◌∙◌, arith, [], ◌∷◌, ◌++◌, Bytes,
  length, length-drop, take, drop, take-length, splice, length-splice, take-splice,
}

-- the registers after so many blocks
abbrev pub chain : {R : Type 0} → (R → Bytes → R) → ℕ → R → Bytes → R
chain transform zero r m = r
chain transform (suc n) r m = chain transform n (transform r (take 64 m)) (drop 64 m)

take_before : (xs ys : Bytes) (n : ℕ) → n ≤ length xs → take n (xs ++ ys) ≡ take n xs
take_before xs ys zero e = refl
take_before [] ys (suc n) e = absurd (omega arith)
take_before (x ∷ xs) ys (suc n) e = ap (◌∷◌ x) (take_before xs ys n (omega arith))

drop_before : (xs ys : Bytes) (n : ℕ) → n ≤ length xs → drop n (xs ++ ys) ≡ drop n xs ++ ys
drop_before xs ys zero e = refl
drop_before [] ys (suc n) e = absurd (omega arith)
drop_before (x ∷ xs) ys (suc n) e = drop_before xs ys n (omega arith)

-- a block that is filled up is the bytes in it and those behind them
pub filled_up :
    (block : Bytes) (at : ℕ) (rest more : Bytes)
    → length block ≡ 64
    → take at block ≡ rest
    → at + length more ≡ 64
    → splice block at more ≡ rest ++ more
filled_up block at rest more z e h =
    sym (take-length 64 (splice block at more) (omega (arith, length-splice block at more)))
    ∙ take-splice block at more 64 (omega arith) (omega arith)
    ∙ ap (λ (l : Bytes). l ++ more) e

-- registers and block hold the message `m`
pub record Holds {R : Type 0} (transform : R → Bytes → R) (start : R) (buf : R) (block m : Bytes)
    : Type 0 where
  pub count : ℕ
  pub whole : Bytes
  pub rest : Bytes
  pub parts : whole ++ rest ≡ m
  pub blocks : length whole ≡ 64 * count
  pub short : length rest < 64
  pub chained : buf ≡ chain transform count start whole
  pub waits : take (length rest) block ≡ rest
  pub size : length block ≡ 64

module _ {R : Type 0} (transform : R → Bytes → R) (start : R) where
  -- one block more
  pub chain-snoc :
      (n : ℕ) (r : R) (whole b : Bytes)
      → length whole ≡ 64 * n
      → length b ≡ 64
      → chain transform (suc n) r (whole ++ b) ≡ transform (chain transform n r whole) b
  chain-snoc zero r [] b e h = ap (transform r) (take-length 64 b (omega arith))
  chain-snoc zero r (x ∷ whole) b e h = absurd (omega arith)
  chain-snoc (suc n) r whole b e h =
      let first : take 64 (whole ++ b) ≡ take 64 whole = take_before whole b 64 (omega arith) in
      let rest : drop 64 (whole ++ b) ≡ drop 64 whole ++ b = drop_before whole b 64 (omega arith) in
      let more =
        chain-snoc n (transform r (take 64 whole)) (drop 64 whole) b
          (omega (arith, length-drop 64 whole)) h in
      ap₂ (λ (f l : Bytes). chain transform (suc n) (transform r f) l) first rest ∙ more

  -- the bytes that are left are copied to the start of the block
  pub copied :
      (buf : R) (block bytes : Bytes) (count : ℕ) (whole : Bytes)
      → length bytes < 64
      → length whole ≡ 64 * count
      → buf ≡ chain transform count start whole
      → length block ≡ 64
      → Holds transform start buf (splice block 0 bytes) (whole ++ bytes)
  copied buf block bytes count whole f e c z = record {
    count = count;
    whole = whole;
    rest = bytes;
    parts = refl;
    blocks = e;
    short = f;
    chained = c;
    waits = take-splice block 0 bytes (length bytes) (omega arith) (omega arith);
    size = omega (arith, length-splice block 0 bytes);
  }

  pub extended :
      (buf : R) (block : Bytes) (count : ℕ) (whole : Bytes)
      → length whole ≡ 64 * count
      → length block ≡ 64
      → buf ≡ chain transform count start whole
      → transform buf block ≡ chain transform (suc count) start (whole ++ block)
  extended buf block count whole e h c =
      ap (λ (q : R). transform q block) c ∙ sym (chain-snoc count start whole block e h)
