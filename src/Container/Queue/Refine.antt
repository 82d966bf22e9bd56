-- ===== src/Container/Queue/Refine.antt =====
-- A valid ct_queue behaves as the bounded FIFO of the elements that it holds.
use native.Mathlib.Decide.{ℕ_discrete}
use coter.Base.{
  [], ◌++◌, ap₂, set_slot, add_size, suc, ◌+◌, ◌-◌, ◌≤◌, ◌≡◌, ◌≢◌, ap, ◌∙◌, ◌∷◌, List, some, true,
  arith, length, length-take, take, Bytes, wrap, slot, length-tabulate,
}
use coter.Container.Fifo
use coter.Container.Slots.{ring, ring-suc, ring-set_end}
use coter.Container.Queue.{Queue, enqueue, dequeue, peek}
use coter.Container.Queue.Inv.{IsValid}

-- the elements of the queue, oldest first
abbrev pub contents : Queue → List Bytes
contents q = ring q.byte q.all q.max q.head q.size

pub length-contents : (q : Queue) → length (contents q) ≡ q.size
length-contents q = length-tabulate q.size _

-- The code tests `size == 0`, the ring matches on `suc`.
contents_of_ne_zero :
    (q : Queue)
    → IsValid q
    → q.size ≢ 0
    → contents q
      ≡ slot q.byte q.all q.head ∷ ring q.byte q.all q.max (wrap q.max (q.head + 1)) (q.size - 1)
contents_of_ne_zero q v h =
    let e : q.size ≡ suc (q.size - 1) = omega arith in
    ap (ring q.byte q.all q.max q.head) e
    ∙ ring-suc q.byte q.all q.max q.head (q.size - 1) (omega arith) (omega arith)

-- Writing the slot at `tail` puts an element behind the others.
stored :
    (q : Queue) (x : Bytes)
    → IsValid q
    → length x ≡ q.byte
    → q.size ≢ q.max
    → ring q.byte (set_slot q.byte q.all q.tail x) q.max q.head (add_size q.size 1)
      ≡ contents q ++ (x ∷ [])
stored q x v e h =
    ap₂ (λ t n. ring q.byte (set_slot q.byte q.all t x) q.max q.head n) v.tail_at (omega arith)
    ∙ ring-set_end q.byte q.all q.max v.storage q.head q.size x (omega arith) (omega arith) e

-- ct_queue_enqueue with an item of at least `byte` bytes answers as the bounded FIFO does, and leaves
-- the queue holding the FIFO's items: the first `byte` bytes at the end, or nothing new when full.
pub enqueue_refines :
    (q : Queue) (item : Bytes)
    → IsValid q
    → q.byte ≤ length item
    → let (ok, q') = enqueue q (some item) in
      (ok, contents q') ≡ Fifo.push q.max (contents q) (take q.byte item)
unfolding enqueue Fifo.push
enqueue_refines q item v h = ground (
  arith,
  stored q (take q.byte item) v (omega (arith, length-take q.byte item)),
  length-contents q,
)

-- ct_queue_dequeue into a destination answers as the FIFO does: the oldest element comes out, and
-- the others stay in order.
pub dequeue_refines :
    (q : Queue)
    → IsValid q
    → let (ok, out, q') = dequeue q true in (ok, out, contents q') ≡ Fifo.pop (contents q)
unfolding dequeue Fifo.pop
dequeue_refines q v = elim (ℕ_discrete q.size 0) [
  | yes e ↦ ground (arith, ap (ring q.byte q.all q.max q.head) e)
  | no ne ↦ ground (arith, contents_of_ne_zero q v ne)
]

-- ct_queue_head into a destination answers as the FIFO does: with the oldest element, if there is one.
pub peek_refines : (q : Queue) → IsValid q → peek q true ≡ Fifo.peek (contents q)
unfolding peek Fifo.peek
peek_refines q v = elim (ℕ_discrete q.size 0) [
  | yes e ↦ ground (arith, ap (ring q.byte q.all q.max q.head) e)
  | no ne ↦ ground (arith, contents_of_ne_zero q v ne)
]
