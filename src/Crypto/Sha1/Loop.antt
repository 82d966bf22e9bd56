-- ===== src/Crypto/Sha1/Loop.antt =====
-- The loop of ct_sha1_update over whole blocks.
use coter.Base.{
  ℕ, zero, suc, ◌+◌, ◌*◌, ◌%◌, ◌^◌, ◌≤◌, ◌<◌, ◌≡◌, refl, sym, ap, ◌∙◌, arith, true, Option, none,
  some, [], ◌∷◌, ◌++◌, append_assoc, Bytes, length, length-take, length-drop, length-append, drop,
  slice, take-append-drop, leb, Bool-cases, inl, inr,
}
use coter.Encoding.Binary.{Endian}
use coter.Crypto.Blocks.{chain, extended}
use coter.Crypto.Sha1.Rounds.{Registers, transform}
use coter.Crypto.Sha1.{start, blocks}

-- The loop ended at an index with less than a block behind it; the blocks up to there went in.
pub record Ended (host : Endian) (p message : Bytes) (state : Registers) (i : ℕ) : Type 0 where
  pub count : ℕ
  pub whole : Bytes
  pub sized : length whole ≡ 64 * count
  pub chained : state ≡ chain (transform host) count start whole
  pub parts : whole ++ drop i p ≡ message
  pub short : length p < i + 64
  pub inside : i ≤ length p

abbrev pub IsEnded : Endian → Bytes → Bytes → Option (Registers × ℕ) → Type 0
IsEnded host p message none = ⊥
IsEnded host p message (some (state, i)) = Ended host p message state i

drop-drop : (i n : ℕ) (p : Bytes) (k : ℕ) → k ≡ i + n → drop n (drop i p) ≡ drop k p
drop-drop zero n p k e = ap (λ (j : ℕ). drop j p) (let same : n ≡ k = omega arith in same)
drop-drop (suc i) zero p k e = ap (λ (j : ℕ). drop j p) (let same : suc i ≡ k = omega arith in same)
drop-drop (suc i) (suc n) [] zero e = refl
drop-drop (suc i) (suc n) [] (suc k) e = refl
drop-drop (suc i) (suc n) (x ∷ p) zero e = absurd (omega arith)
drop-drop (suc i) (suc n) (x ∷ p) (suc k) e = drop-drop i (suc n) p k (omega arith)

pub blocks-IsEnded :
    (host : Endian) (fuel : ℕ) (state : Registers) (p message : Bytes) (i count : ℕ) (whole : Bytes)
    → length p < 2 ^ 32
    → i ≤ length p
    → length p < i + 64 * fuel
    → length whole ≡ 64 * count
    → state ≡ chain (transform host) count start whole
    → whole ++ drop i p ≡ message
    → IsEnded host p message (blocks host fuel state p i)
unfolding blocks
blocks-IsEnded host zero state p message i count whole s h f e c m = absurd (omega arith)
blocks-IsEnded host (suc fuel) state p message i count whole s h f e c m =
    elim (Bool-cases (leb (i + 64) (length p))) [
      | inr last ↦ rw last (record {
        count = count;
        whole = whole;
        sized = e;
        chained = c;
        parts = m;
        short = ground (arith, last);
        inside = h;
      })
      | inl more ↦
          let le : i + 64 ≤ length p = ground (arith, more) in
          let b = slice p i 64 in
          let b_size : length b ≡ 64 = omega (arith, length-take 64 (drop i p), length-drop i p) in
          let next : (i + 64) % 2 ^ 32 ≡ i + 64 = omega arith in
          let joined : (whole ++ b) ++ drop (i + 64) p ≡ message =
            append_assoc whole b (drop (i + 64) p)
            ∙ ap (λ (l : Bytes). whole ++ (b ++ l)) (sym (drop-drop i 64 p (i + 64) refl))
            ∙ ap (◌++◌ whole) (take-append-drop 64 (drop i p))
            ∙ m in
          rw (more, next)
            (blocks-IsEnded host fuel (transform host state b) p message (i + 64) (suc count)
              (whole ++ b) s le (omega arith) (omega (arith, length-append whole b))
              (extended (transform host) start state b count whole e b_size c) joined)
    ]

-- From 2 ^ 32 + 64 bytes on, the index of the loop turns round before it reaches the end: whatever the
-- fuel, the loop over whole blocks does not end.
pub blocks_never_end :
    (host : Endian) (fuel : ℕ) (state : Registers) (p : Bytes) (i : ℕ)
    → 2 ^ 32 + 64 ≤ length p
    → i < 2 ^ 32
    → blocks host fuel state p i ≡ none
unfolding blocks
blocks_never_end host zero state p i h k = refl
blocks_never_end host (suc fuel) state p i h k =
    let more : leb (i + 64) (length p) ≡ true = ground arith in
    rw more (
      blocks_never_end host fuel (transform host state (slice p i 64)) p ((i + 64) % 2 ^ 32) h
        (omega arith))
