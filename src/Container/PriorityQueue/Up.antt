-- ===== src/Container/PriorityQueue/Up.antt =====
-- The way up: what sifting an element up does to the order and to the elements of the heap.
use coter.Base.{ℕ, zero, suc, ◌+◌, ◌≤◌, ◌<◌, ◌≡◌, ◌≢◌, arith, Bool, not, ℤ, ltb, ◌==◌, if_intro}
use coter.Container.PriorityQueue.{
  PriorityQueue, is_negative, is_positive, update, parent, sift_up, push_in,
}
use coter.Container.PriorityQueue.Items.{one, count, count-apart, count-update}

-- the comparison orders the elements by a rank
abbrev pub Ranked {ℓ} : {A : Type ℓ} → (A → A → ℤ) → (A → ℕ) → Type ℓ
Ranked {A = A} cmp rank =
    (a b : A)
    → (is_negative (cmp a b) ≡ ltb (rank a) (rank b))
      × (is_positive (cmp a b) ≡ ltb (rank b) (rank a))

module _ {ℓ} {A : Type ℓ} (rank : A → ℕ) (n : ℕ) where
  -- no element ranks below its parent
  abbrev pub IsHeap : (ℕ → A) → Type 0
  IsHeap all = (c : ℕ) → 0 < c → c < n → rank (all (parent c)) ≤ rank (all c)

  -- only the edge above `i` may be out of order
  record UpInv (all : ℕ → A) (i : ℕ) : Type 0 where
    edges : (c : ℕ) → 0 < c → c < n → c ≢ i → rank (all (parent c)) ≤ rank (all c)
    bridged : (c : ℕ) → 0 < c → c < n → parent c ≡ i → 0 < i → rank (all (parent i)) ≤ rank (all c)

module _ {ℓ} {A : Type ℓ} (cmp : A → A → ℤ) (rank : A → ℕ) (ranked : Ranked cmp rank) where
  rise-UpInv :
      (n : ℕ) (all : ℕ → A) (i : ℕ) (tmp : A)
      → UpInv rank n (update all i tmp) i
      → 0 < i
      → i < n
      → rank tmp < rank (all (parent i))
      → UpInv rank n (update (update all i (all (parent i))) (parent i) tmp) (parent i)
  rise-UpInv n all i tmp v pos inside below = record {
    edges = λ c p q r. ground (arith, v.edges c, v.bridged c);
    bridged = λ c p q r t. ground (arith, v.edges c, v.edges (parent i));
  }

  sift_up-IsHeap :
      (fuel n : ℕ) (all : ℕ → A) (i : ℕ) (tmp : A)
      → i ≤ fuel
      → i < n
      → UpInv rank n (update all i tmp) i
      → IsHeap rank n (sift_up cmp fuel all i tmp)
  unfolding sift_up
  sift_up-IsHeap zero n all i tmp f inside v = λ c p q. v.edges c p q (omega arith)
  sift_up-IsHeap (suc fuel) n all i tmp f inside v =
      if_intro (IsHeap rank n) (i == 0) _ _ (λ e c p q. v.edges c p q (ground arith))
        (λ e.
          if_intro (IsHeap rank n) (not (is_negative (cmp tmp (all (parent i))))) _ _
            (λ stays c p q. ground (arith, v.edges c, (ranked tmp (all (parent i))).0))
            (λ rises.
              sift_up-IsHeap fuel n (update all i (all (parent i))) (parent i) tmp (ground arith)
                (ground arith)
                (rise-UpInv n all i tmp v (ground arith) inside
                  (ground (arith, (ranked tmp (all (parent i))).0)))))

  sift_up-count :
      (test : A → Bool) (fuel n : ℕ) (all : ℕ → A) (i : ℕ) (tmp : A)
      → i < n
      → count test n (sift_up cmp fuel all i tmp) + one (test (all i))
        ≡ count test n all + one (test tmp)
  unfolding sift_up
  sift_up-count test zero n all i tmp inside = count-update test n i all tmp inside
  sift_up-count test (suc fuel) n all i tmp inside =
      let stays = count-update test n i all tmp inside in
      let moved = update all i (all (parent i)) in
      let Counts : (ℕ → A) → Type 0 =
        λ b. count test n b + one (test (all i)) ≡ count test n all + one (test tmp) in
      if_intro Counts (i == 0) _ _ (λ e. stays)
        (λ e.
          if_intro Counts (not (is_negative (cmp tmp (all (parent i))))) _ _ (λ f. stays)
            (λ f. ground (
              arith,
              sift_up-count test fuel n moved (parent i) tmp (ground arith),
              count-update test n i all (all (parent i)) inside,
            )))

  pub push_in-IsHeap :
      (self : PriorityQueue A) (item : A)
      → IsHeap rank self.size self.all
      → IsHeap rank (suc self.size) (push_in cmp self item).all
  unfolding push_in
  push_in-IsHeap self item h =
      let stored = update self.all self.size item in
      sift_up-IsHeap self.size (suc self.size) stored self.size (stored self.size) (omega arith)
        (omega arith)
        (record {
          edges = λ c p q r. ground (arith, h c);
          bridged = λ c p q r t. absurd (omega arith);
        })

  pub push_in-count :
      (test : A → Bool) (self : PriorityQueue A) (item : A)
      → count test (suc self.size) (push_in cmp self item).all
        ≡ count test self.size self.all + one (test item)
  unfolding push_in count
  push_in-count test self item =
      let stored = update self.all self.size item in
      ground (
        arith,
        sift_up-count test self.size (suc self.size) stored self.size (stored self.size)
            (omega arith),
        count-apart test self.size self.size self.all item (omega arith),
      )
