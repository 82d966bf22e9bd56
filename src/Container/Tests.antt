-- ===== src/Container/Tests.antt =====
-- Concrete runs of the queue.
use coter.Base.{ℕ, ◌+◌, ◌≡◌, refl, arith, true, some, [], ◌∷◌, ℤ, pos, Bytes, length, take}
use coter.Container.Fifo
use coter.Container.Queue
use coter.Container.Queue.{Queue}
use coter.Container.Queue.Inv
use coter.Container.Queue.Refine.{contents, enqueue_refines, dequeue_refines}

-- two-byte elements 5 6, then 1 2, round the end of storage for three
abbrev two_items : Queue
two_items = record {
  all = 1 ∷ 2 ∷ 3 ∷ 4 ∷ 5 ∷ 6 ∷ [];
  byte = 2;
  max = 3;
  head = 2;
  tail = 1;
  size = 2;
}

abbrev pair : Bytes
pair = 8 ∷ 9 ∷ []

two_items-IsValid : Queue.Inv.IsValid two_items
two_items-IsValid = omega arith

contents-two_items : contents two_items ≡ (5 ∷ 6 ∷ []) ∷ (1 ∷ 2 ∷ []) ∷ []
contents-two_items = refl

enqueue_refines_example :
    let (ok, q') = Queue.enqueue two_items (some pair) in
    (ok, contents q') ≡ Fifo.push 3 (contents two_items) pair
enqueue_refines_example = enqueue_refines two_items pair two_items-IsValid (omega arith)

dequeue_refines_example :
    let (ok, out, q') = Queue.dequeue two_items true in
    (ok, out, contents q') ≡ Fifo.pop (contents two_items)
dequeue_refines_example = dequeue_refines two_items two_items-IsValid

-- counts the elements, and overwrites each with the pair
abbrev count : ℕ → Bytes → ℤ × ℕ × Bytes
count n x = (pos 0, n + 1, take (length x) pair)

count_keeps : (n : ℕ) (x : Bytes) → length x ≡ 2 → length (count n x).2 ≡ 2
count_keeps n x e = rw e refl
