-- ===== src/Container/Queue/Inv.antt =====
-- The representation invariant of `ct_queue_t`.
use coter.Base.{
  refl, ℕ, ◌+◌, ◌-◌, ◌*◌, ◌≤◌, ◌<◌, ◌≡◌, Option, some, Bool, arith, length, length-set_slot, take,
  Bytes, wrap, size_mod,
}
use coter.Container.Queue.{Queue, init, enqueue, dequeue}

-- The storage holds `max` elements, the indices lie in it, and `tail` is `size` places past `head`.
pub record IsValid (q : Queue) : Type 0 where
  pub sized : 0 < q.byte
  pub storage : q.max * q.byte ≤ length q.all
  pub small : q.max < size_mod
  pub head_in : q.head ≤ q.max - 1
  pub size_in : q.size ≤ q.max
  pub tail_at : q.tail ≡ wrap q.max (q.head + q.size)

-- ct_queue_init on storage for `max` elements of at least one byte gives a valid empty queue.
pub init-IsValid :
    (q : Queue) (buffer : Bytes) (byte max : ℕ)
    → 0 < byte
    → max < size_mod
    → max * byte ≤ length buffer
    → IsValid (init q (some buffer) byte max) × ((init q (some buffer) byte max).size ≡ 0)
unfolding init
init-IsValid q buffer byte max h k r = ground arith

-- ct_queue_enqueue keeps the invariant.
pub enqueue-IsValid : (q : Queue) (item : Option Bytes) → IsValid q → IsValid (enqueue q item).1
unfolding enqueue
enqueue-IsValid q (some item) v =
    ground (arith, length-set_slot q.byte q.all q.tail (take q.byte item))
enqueue-IsValid q _ v = v

-- ct_queue_dequeue keeps the invariant.
pub dequeue-IsValid : (q : Queue) (item : Bool) → IsValid q → IsValid (dequeue q item).2
unfolding dequeue
dequeue-IsValid q item v = ground arith

-- The calls leave the layout of the storage alone.
pub enqueue_same :
    (q : Queue) (item : Option Bytes)
    → ((enqueue q item).1.byte ≡ q.byte) × ((enqueue q item).1.max ≡ q.max)
unfolding enqueue
enqueue_same q (some item) = ground arith
enqueue_same q _ = (refl, refl)

pub dequeue_same :
    (q : Queue) (item : Bool)
    → ((dequeue q item).2.byte ≡ q.byte) × ((dequeue q item).2.max ≡ q.max)
unfolding dequeue
dequeue_same q item = ground arith
