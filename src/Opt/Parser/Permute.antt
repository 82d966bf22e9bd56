-- ===== src/Opt/Parser/Permute.antt =====
-- What `opt_permute` does to the array, entry by entry.
use native.Mathlib.Decide.{ℕ_discrete}
use coter.Base.{
  ℕ, zero, suc, ◌+◌, ◌-◌, ◌≤◌, ◌<◌, ◌≡◌, refl, ap, ◌∙◌, arith, Option, leb, ltb, ◌==◌, ◌&&◌, Bytes,
  if◌then◌else◌,
}
use coter.Opt.Parser.{set_arg, shift, permute_loop, opt_permute}

shift_lem :
    (r : ℕ) (argv : ℕ → Option Bytes) (low i : ℕ)
    → shift r argv low i ≡ (if ltb low i && leb i (low + r) then argv (i - 1) else argv i)
unfolding shift
shift_lem zero argv low i = ground arith
shift_lem (suc r) argv low i =
    ground (arith, shift_lem r (set_arg argv (low + suc r) (argv (low + r))) low i)

-- one round of the outer loop
abbrev round : (ℕ → Option Bytes) → ℕ → ℕ → ℕ → ℕ → Option Bytes
round argv from to k = set_arg (shift (from - to) argv (to + k)) (to + k) (argv (from + k))

round_lem :
    (argv : ℕ → Option Bytes) (from to k i : ℕ)
    → to ≤ from
    → round argv from to k i ≡ (
        if i == to + k
        then argv (from + k)
        else if ltb (to + k) i && leb i (from + k)
        then argv (i - 1)
        else argv i)
round_lem argv from to k i h = ground (arith, shift_lem (from - to) argv (to + k) i)

permute_loop-below :
    (from to : ℕ)
    → to ≤ from
    → (n : ℕ) (argv : ℕ → Option Bytes) (k i : ℕ) → i < to + k
    → permute_loop n argv from to k i ≡ argv i
unfolding permute_loop
permute_loop-below from to h zero argv k i p = refl
permute_loop-below from to h (suc n) argv k i p =
    permute_loop-below from to h n (round argv from to k) (suc k) i (omega arith)
    ∙ ground (arith, round_lem argv from to k i h)

-- where it puts the entries, those that it passes, and the others
module _ (from to : ℕ) (h : to ≤ from) where
  permute_loop-front :
      (n : ℕ) (argv : ℕ → Option Bytes) (k i : ℕ)
      → to + k ≤ i
      → i < to + k + n
      → permute_loop n argv from to k i ≡ argv (i + (from - to))
  unfolding permute_loop
  permute_loop-front zero argv k i p q = absurd (omega arith)
  permute_loop-front (suc n) argv k i p q = elim (ℕ_discrete i (to + k)) [
    | yes e ↦
        let at : from + k ≡ i + (from - to) = omega arith in
        permute_loop-below from to h n (round argv from to k) (suc k) i (omega arith)
        ∙ ground (arith, round_lem argv from to k i h, ap argv at)
    | no ne ↦
        permute_loop-front n (round argv from to k) (suc k) i (omega arith) (omega arith)
        ∙ ground (arith, round_lem argv from to k (i + (from - to)) h)
  ]

  permute_loop-middle :
      (n : ℕ) (argv : ℕ → Option Bytes) (k i : ℕ)
      → to + k + n ≤ i
      → i < from + k + n
      → permute_loop n argv from to k i ≡ argv (i - n)
  unfolding permute_loop
  permute_loop-middle zero argv k i p q = ap argv (omega arith)
  permute_loop-middle (suc n) argv k i p q =
      let at : i - n - 1 ≡ i - suc n = omega arith in
      permute_loop-middle n (round argv from to k) (suc k) i (omega arith) (omega arith)
      ∙ ground (arith, round_lem argv from to k (i - n) h, ap argv at)

  permute_loop-above :
      (n : ℕ) (argv : ℕ → Option Bytes) (k i : ℕ)
      → from + k + n ≤ i
      → permute_loop n argv from to k i ≡ argv i
  unfolding permute_loop
  permute_loop-above zero argv k i p = refl
  permute_loop-above (suc n) argv k i p =
      permute_loop-above n (round argv from to k) (suc k) i (omega arith)
      ∙ ground (arith, round_lem argv from to k i h)

module _ (from to : ℕ) (h : to ≤ from) (n : ℕ) (argv : ℕ → Option Bytes) (i : ℕ) where
  pub opt_permute-below : i < to → opt_permute argv from to n i ≡ argv i
  unfolding opt_permute
  opt_permute-below p = permute_loop-below from to h n argv 0 i (omega arith)

  pub opt_permute-front :
      to ≤ i → i < to + n → opt_permute argv from to n i ≡ argv (i + (from - to))
  unfolding opt_permute
  opt_permute-front p q = permute_loop-front from to h n argv 0 i (omega arith) (omega arith)

  pub opt_permute-middle : to + n ≤ i → i < from + n → opt_permute argv from to n i ≡ argv (i - n)
  unfolding opt_permute
  opt_permute-middle p q = permute_loop-middle from to h n argv 0 i (omega arith) (omega arith)

  pub opt_permute-above : from + n ≤ i → opt_permute argv from to n i ≡ argv i
  unfolding opt_permute
  opt_permute-above p = permute_loop-above from to h n argv 0 i (omega arith)
