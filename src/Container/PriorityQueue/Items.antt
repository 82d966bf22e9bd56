-- ===== src/Container/PriorityQueue/Items.antt =====
-- Which elements the storage of a priority queue holds, counted under any test.
use native.Mathlib.Decide.{ℕ_discrete}
use coter.Base.{ℕ, zero, suc, ◌+◌, ◌≤◌, ◌<◌, ◌≡◌, refl, ap₂, arith, Bool, true, false}
use coter.Container.PriorityQueue.{update}

abbrev pub one : Bool → ℕ
one true = 1
one false = 0

module _ {ℓ} {A : Type ℓ} (test : A → Bool) where
  -- how many of the first `n` elements pass the test
  unfoldable pub count : ℕ → (ℕ → A) → ℕ
  count zero all = 0
  count (suc n) all = count n all + one (test (all n))

  pub count-apart : (n i : ℕ) (all : ℕ → A) (v : A) → n ≤ i → count n (update all i v) ≡ count n all
  unfolding count
  count-apart zero i all v h = refl
  count-apart (suc n) i all v h = ground (arith, count-apart n i all v (omega arith))

  pub count-update :
      (n i : ℕ) (all : ℕ → A) (v : A)
      → i < n
      → count n (update all i v) + one (test (all i)) ≡ count n all + one (test v)
  unfolding count
  count-update zero i all v h = absurd (omega arith)
  count-update (suc n) i all v h = elim (ℕ_discrete n i) [
    | yes e ↦ ground (arith, count-apart n i all v (omega arith))
    | no ne ↦ ground (arith, count-update n i all v (omega arith))
  ]

  pub count-same :
      (n : ℕ) (all next : ℕ → A) → ((i : ℕ) → i < n → next i ≡ all i) → count n next ≡ count n all
  unfolding count
  count-same zero all next h = refl
  count-same (suc n) all next h =
      ap₂ (λ k x. k + one (test x)) (count-same n all next (λ i p. h i (omega arith)))
        (h n (omega arith))
