-- ===== src/Container/PriorityQueue/Down.antt =====
-- The way down: what popping an element returns, which elements it leaves, and where their order fails.
use coter.Base.{
  ℕ, zero, suc, ◌+◌, ◌-◌, ◌*◌, ◌/◌, ◌^◌, ◌≤◌, ◌<◌, ◌≡◌, arith, Bool, true, not, Option, some, ℤ,
  ◌==◌, if_intro,
}
use coter.Container.PriorityQueue.{PriorityQueue, is_positive, update, better, pick, sift_down, pop}
use coter.Container.PriorityQueue.Items.{one, count, count-update}
use coter.Container.PriorityQueue.Up.{IsHeap}

root_below {ℓ} :
    {A : Type ℓ} (rank : A → ℕ) (n : ℕ) (all : ℕ → A) (fuel i : ℕ)
    → IsHeap rank n all
    → i ≤ fuel
    → i < n
    → rank (all 0) ≤ rank (all i)
root_below rank n all zero zero h f p = omega arith
root_below rank n all zero (suc i) h f p = absurd (omega arith)
root_below rank n all (suc fuel) zero h f p = omega arith
root_below rank n all (suc fuel) (suc i) h f p =
    ground (arith, h (suc i), root_below rank n all fuel (i / 4) h)

module _ {ℓ} {A : Type ℓ} (cmp : A → A → ℤ) where
  better-inside : (all : ℕ → A) (size c s : ℕ) → s < size → better cmp all size c s < size
  better-inside all size c s h = ground arith

  pick-inside : (all : ℕ → A) (size i : ℕ) → i < size → pick cmp all size i < size
  unfolding pick
  pick-inside all size i h =
      better-inside all size _ _
        (better-inside all size _ _ (better-inside all size _ _ (better-inside all size _ i h)))

  sift_down-count :
      (test : A → Bool) (fuel n : ℕ) (all : ℕ → A) (i : ℕ) (tmp : A)
      → i < n
      → count test n (sift_down cmp fuel all n i tmp) + one (test (all i))
        ≡ count test n all + one (test tmp)
  unfolding sift_down
  sift_down-count test zero n all i tmp inside = count-update test n i all tmp inside
  sift_down-count test (suc fuel) n all i tmp inside =
      let stays = count-update test n i all tmp inside in
      let s = pick cmp all n i in
      let moved = update all i (all s) in
      let Counts : (ℕ → A) → Type 0 =
        λ b. count test n b + one (test (all i)) ≡ count test n all + one (test tmp) in
      if_intro Counts (s == i) _ _ (λ e. stays)
        (λ e.
          if_intro Counts (not (is_positive (cmp tmp (all s)))) _ _ (λ f. stays)
            (λ f. ground (
              arith,
              sift_down-count test fuel n moved s tmp (pick-inside all n i inside),
              count-update test n i all (all s) inside,
            )))

  count-last :
      (test : A → Bool) (n : ℕ) (all : ℕ → A)
      → 0 < n
      → count test n all ≡ count test (n - 1) all + one (test (all (n - 1)))
  unfolding count
  count-last test zero all h = absurd (omega arith)
  count-last test (suc n) all h = ground arith

  -- what a pop of a queue that is not empty leaves
  pub record Popped (rank : A → ℕ) (self : PriorityQueue A) (r : Bool × Option A × PriorityQueue A)
      : Type ℓ where
    pub answer : r.0 ≡ true
    pub item : r.1 ≡ some (self.all 0)
    pub least : (i : ℕ) → i < self.size → rank (self.all 0) ≤ rank (self.all i)
    pub shorter : r.2.size + 1 ≡ self.size
    pub counted :
        (test : A → Bool)
        → count test r.2.size r.2.all + one (test (self.all 0)) ≡ count test self.size self.all

  -- A pop of a heap that is not empty, whose elements take less than 2 ^ 32 bytes, succeeds and returns
  -- an element of the least rank. One element fewer is left, and these are the others, counted under
  -- any test.
  pub heap_pop :
      (rank : A → ℕ) (self : PriorityQueue A)
      → 0 < self.size
      → self.size * self.item_size < 2 ^ 32
      → IsHeap rank self.size self.all
      → Popped rank self (pop cmp self)
  unfolding pop
  heap_pop rank self some_left bytes h = record {
    answer = ground arith;
    item = ground arith;
    least = λ i p. root_below rank self.size self.all i i h (omega arith) p;
    shorter = ground arith;
    counted = λ test.
        let n = self.size - 1 in
        let moved = update self.all 0 (self.all n) in
        ground (
          arith,
          sift_down-count test n n moved 0 (moved 0),
          count-update test n 0 self.all (self.all n),
          count-last test self.size self.all some_left,
        );
  }
