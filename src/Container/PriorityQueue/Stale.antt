-- ===== src/Container/PriorityQueue/Stale.antt =====
-- The loop of `pqueue_sift_down` compares the children with what the slot `idx` holds. From the second
-- round on that is what the loop has just moved away from there, and no child ranks below it.
use native.Mathlib.Decide.{ℕ_discrete}
use coter.Base.{
  ℕ, zero, suc, ◌-◌, ◌*◌, ◌^◌, ◌≤◌, ◌<◌, ◌≡◌, ◌≢◌, refl, arith, not, ℤ, leb, ◌==◌, if◌then◌else◌,
}
use coter.Container.PriorityQueue.{
  PriorityQueue, is_positive, update, parent, better, child, pick, sift_down, pop,
}
use coter.Container.PriorityQueue.Up.{Ranked, IsHeap}

module _ {ℓ} {A : Type ℓ} (cmp : A → A → ℤ) (rank : A → ℕ) (ranked : Ranked cmp rank) where
  better-stays :
      (all : ℕ → A) (n c i : ℕ) → (c < n → rank (all i) ≤ rank (all c)) → better cmp all n c i ≡ i
  better-stays all n c i h = ground (arith, (ranked (all c) (all i)).0)

  -- where no child ranks below the slot, the loop ends
  pick-stays :
      (all : ℕ → A) (n i : ℕ)
      → ((j : ℕ) → 0 < j → j ≤ 4 → child i j < n → rank (all i) ≤ rank (all (child i j)))
      → pick cmp all n i ≡ i
  unfolding pick
  pick-stays all n i h = rw (
    better-stays all n (child i 1) i (h 1 (omega arith) (omega arith)),
    better-stays all n (child i 2) i (h 2 (omega arith) (omega arith)),
    better-stays all n (child i 3) i (h 3 (omega arith) (omega arith)),
    better-stays all n (child i 4) i (h 4 (omega arith) (omega arith)),
  )

  sift_down-stays :
      (fuel n : ℕ) (all : ℕ → A) (i : ℕ) (tmp : A)
      → pick cmp all n i ≡ i
      → sift_down cmp fuel all n i tmp ≡ update all i tmp
  unfolding sift_down
  sift_down-stays zero n all i tmp e = refl
  sift_down-stays (suc fuel) n all i tmp e = ground (arith, e)

  module _ (self : PriorityQueue A) (heap : IsHeap rank self.size self.all)
      (small : self.size < 2 ^ 30) where
    -- The children of a slot that has moved up keep their places.
    round-stays :
        (last : A) (n s : ℕ)
        → n < self.size
        → 0 < s
        → s < n
        → pick cmp (update (update self.all 0 last) 0 (self.all s)) n s ≡ s
    round-stays last n s p pos q = pick-stays _ n s λ j g h f. ground (arith, heap (child s j))

    better-first :
        (all : ℕ → A) (n c s : ℕ)
        → c ≤ 4
        → (s < n) × (s ≤ 4)
        → (better cmp all n c s < n) × (better cmp all n c s ≤ 4)
    better-first all n c s small h = ground arith

    first-inside : (all : ℕ → A) (n : ℕ) → 0 < n → (pick cmp all n 0 < n) × (pick cmp all n 0 ≤ 4)
    unfolding pick
    first-inside all n p = better-first all n 4 _ (omega arith) (
        better-first all n 3 _ (omega arith) (
          better-first all n 2 _ (omega arith)
            (better-first all n 1 0 (omega arith) (p, omega arith))))

    -- the storage when the last element sinks from the root
    abbrev sunk : ℕ → ℕ → A
    sunk n =
        let moved = update self.all 0 (self.all n) in
        let s = pick cmp moved n 0 in
        if s == 0
        then update moved 0 (self.all n)
        else if not (is_positive (cmp (self.all n) (moved s)))
        then update moved 0 (self.all n)
        else update (update moved 0 (moved s)) s (self.all n)

    sift_down-sunk :
        (fuel n : ℕ)
        → 0 < n
        → n < self.size
        → sift_down cmp (suc fuel) (update self.all 0 (self.all n)) n 0 (self.all n) ≡ sunk n
    unfolding sift_down
    sift_down-sunk fuel n pos p =
        let moved = update self.all 0 (self.all n) in
        let s = pick cmp moved n 0 in
        let inside = first-inside moved n pos in
        elim (ℕ_discrete s 0) [
          | yes e ↦ ground (arith, e)
          | no ne ↦
              rw
                (sift_down-stays fuel n (update moved 0 (moved s)) s (self.all n)
                  (pick-stays _ n s λ j g h f. ground (arith, heap (child s j))))
                refl
        ]

    pop-sunk : (k : ℕ) → self.size ≡ suc (suc k) → (i : ℕ) → (pop cmp self).2.all i ≡ sunk (suc k) i
    unfolding pop
    pop-sunk k e i =
        let less : self.size - 1 ≡ suc k = omega arith in
        rw (less, e, sift_down-sunk k (suc k) (omega arith) (omega arith)) (ground arith)

    -- the elements after a pop, below the root and its children
    pub pop_sinks_once : (i : ℕ) → 4 < i → i < self.size → (pop cmp self).2.all i ≡ self.all i
    pop_sinks_once i deep inside =
        let k = self.size - 2 in
        let moved = update self.all 0 (self.all (suc k)) in
        ground (arith, pop-sunk k (omega arith) i, first-inside moved (suc k) (omega arith))

    -- after the children up to `j`: the choice is `s` from `j ≡ s` on, and ranks above `s` before
    abbrev Choice : (ℕ → A) → ℕ → ℕ → ℕ → Type 0
    Choice b s j r = if leb s j then r ≡ s else rank (b s) < rank (b r)

    module _ (b : ℕ → A) (n s : ℕ) (sn : s < n) (pos : 0 < s) (low : s ≤ 4)
        (least : (j : ℕ) → 0 < j → j ≤ 4 → j < n → j ≢ s → rank (b s) < rank (b j)) where
      better-Choice :
          (j r : ℕ) → j < 4 → Choice b s j r → Choice b s (suc j) (better cmp b n (suc j) r)
      better-Choice j r p h = ground (
        arith,
        least (suc j),
        (ranked (b (suc j)) (b r)).0,
        (ranked (b s) (b r)).0,
        (ranked (b (suc j)) (b s)).0,
      )

      pick-least : rank (b s) < rank (b 0) → pick cmp b n 0 ≡ s
      unfolding pick
      pick-least root = ground (
        arith,
        better-Choice 3 _ (omega arith) (
            better-Choice 2 _ (omega arith)
              (better-Choice 1 _ (omega arith) (better-Choice 0 0 (omega arith) (ground arith)))),
      )

    order_lost :
        (s c : ℕ)
        → 0 < s
        → s ≤ 4
        → ((j : ℕ)
            → 0 < j
            → j ≤ 4
            → j < self.size - 1
            → j ≢ s
            → rank (self.all s) < rank (self.all j))
        → parent c ≡ s
        → c < self.size - 1
        → rank (self.all c) < rank (self.all (self.size - 1))
        → rank ((pop cmp self).2.all c) < rank ((pop cmp self).2.all (parent c))
    order_lost s c pos low least at inside late =
        let k = self.size - 2 in
        let last = self.all (suc k) in
        let moved = update self.all 0 last in
        let order = heap c (omega arith) (omega arith) in
        let picked : pick cmp moved (suc k) 0 ≡ s =
          pick-least moved (suc k) s (omega arith) pos low (λ j p q r t. ground (arith, least j))
            (ground (arith, order)) in
        ground (
          arith,
          pop-sunk k (omega arith) c,
          pop-sunk k (omega arith) s,
          picked,
          (ranked last (self.all s)).1,
          order,
        )

  -- A pop of a heap whose elements, of at least 4 bytes each, take less than 2 ^ 32 bytes, where one child
  -- of the root ranks below the others and the last element ranks above a child of that child: it leaves
  -- this child ranking below its parent.
  pub pop_disorders :
      (self : PriorityQueue A)
      → IsHeap rank self.size self.all
      → 4 ≤ self.item_size
      → self.size * self.item_size < 2 ^ 32
      → (s c : ℕ) → 0 < s
      → s ≤ 4
      → ((j : ℕ)
          → 0 < j
          → j ≤ 4
          → j < self.size - 1
          → j ≢ s
          → rank (self.all s) < rank (self.all j))
      → parent c ≡ s
      → c < self.size - 1
      → rank (self.all c) < rank (self.all (self.size - 1))
      → rank ((pop cmp self).2.all c) < rank ((pop cmp self).2.all (parent c))
  pop_disorders self heap word bytes s c =
      let four_each : self.size * 4 ≤ self.size * self.item_size = grind arith in
      order_lost self heap (omega arith) s c
