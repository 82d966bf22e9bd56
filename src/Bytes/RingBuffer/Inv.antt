-- ===== src/Bytes/RingBuffer/Inv.antt =====
-- The representation invariant of `ct_rbuf_t`, and the bytes that a ring buffer holds.
use coter.Base.{ℕ, ◌+◌, ◌-◌, ◌≤◌, ◌<◌, ◌≡◌, ◌^◌, arith, length, Bytes, get_or, tabulate, wrap}
use coter.Bytes.RingBuffer.{RingBuffer, init}

-- No object is larger than half the address space, so the sums of `size_t` do not wrap.
abbrev pub max_object : ℕ
max_object = 2 ^ 63

pub record IsValid (r : RingBuffer) : Type 0 where
  pub storage : r.cap ≤ length r.store
  pub small : r.cap < max_object
  pub head_in : r.head ≤ r.cap - 1
  pub len_in : r.len ≤ r.cap
  pub tail_at : r.tail ≡ wrap r.cap (r.head + r.len)

-- byte `i` from the oldest on
abbrev pub byte_at : RingBuffer → ℕ → ℕ
byte_at r i = get_or r.store (wrap r.cap (r.head + i)) 0

-- the readable bytes, oldest first
abbrev pub contents : RingBuffer → Bytes
contents r = tabulate r.len (byte_at r)

-- ct_rbuf_init gives a valid empty buffer.
pub init-IsValid :
    (buffer : Bytes) (cap : ℕ)
    → cap ≤ length buffer
    → cap < max_object
    → IsValid (init buffer cap) × ((init buffer cap).len ≡ 0)
unfolding init
init-IsValid buffer cap h k = ground arith
