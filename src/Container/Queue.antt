-- ===== src/Container/Queue.antt =====
-- container/src/queue.c and the macros of queue.h: a first-in first-out ring of elements of `byte`
-- bytes in storage that the caller provides.
pub mod Inv
pub mod Refine
pub mod Traverse
use coter.Base.{
  ℕ, zero, suc, ◌+◌, ◌-◌, ◌*◌, List, Option, none, some, Bool, true, false, ℤ, pos, minus_one,
  is_nonzero, Bytes, slot, set_slot, take, ◌==◌, leb, if◌then◌else◌, add_size,
}

-- `ct_queue_t`. `all` is the storage; element `i` is its slot `i`.
pub record Queue : Type 0 where
  pub all : Bytes
  pub byte : ℕ
  pub max : ℕ
  pub head : ℕ
  pub tail : ℕ
  pub size : ℕ

abbrev pub is_empty : Queue → Bool
is_empty q = q.size == 0

abbrev pub is_full : Queue → Bool
is_full q = q.size == q.max

abbrev pub clear : Queue → Queue
clear q = record q { head = 0; tail = 0; size = 0 }

-- `CT_QUEUE_INDEX_INC`
abbrev pub index_inc : ℕ → ℕ → ℕ
index_inc max idx = if leb max (add_size idx 1) then 0 else add_size idx 1

-- A null buffer is `none`; the struct is then left as it was.
unfoldable pub init : Queue → Option Bytes → ℕ → ℕ → Queue
init q none byte max = q
init q (some buffer) byte max =
    if byte == 0 then q else clear (record q { all = buffer; byte = byte; max = max })

-- The item is what the pointer points to, `none` for a null pointer; `byte` bytes of it are copied.
unfoldable pub enqueue : Queue → Option Bytes → Bool × Queue
enqueue q none = (false, q)
enqueue q (some item) = if q.byte == 0 then (false, q) else if is_full q then (false, q) else (
  true,
  record q {
    all = set_slot q.byte q.all q.tail (take q.byte item);
    tail = index_inc q.max q.tail;
    size = add_size q.size 1;
  },
)

-- `item` says whether the destination is a pointer that is not null; what is written there comes back.
unfoldable pub dequeue : Queue → Bool → Bool × Option Bytes × Queue
dequeue q item =
    if q.byte == 0
    then (false, none, q)
    else if item
    then (if is_empty q then (false, none, q) else (
      true,
      some (slot q.byte q.all q.head),
      record q { head = index_inc q.max q.head; size = q.size - 1 },
    ))
    else (false, none, q)

-- `ct_queue_head`
unfoldable pub peek : Queue → Bool → Bool × Option Bytes
peek q item =
    if q.byte == 0
    then (false, none)
    else if item
    then (if is_empty q then (false, none) else (true, some (slot q.byte q.all q.head)))
    else (false, none)

-- The loop of `ct_queue_traverse`, over the rounds left. The callback works on its argument and on the
-- element, which it may write to; a result other than 0 ends the loop.
module _ {ℓ} {S : Type ℓ} (callback : S → Bytes → ℤ × S × Bytes) (byte max : ℕ) where
  pub traverse_loop : ℕ → ℕ → Bytes → S → ℤ × S × Bytes
  traverse_loop zero idx all s = (pos 0, s, all)
  traverse_loop (suc k) idx all s =
      let (rc, s', item) = callback s (slot byte all idx) in
      let written = set_slot byte all idx item in
      let rest = traverse_loop k (index_inc max idx) written s' in
      if is_nonzero rc then (rc, s', written) else rest

pub traverse {ℓ} : {S : Type ℓ} → Queue → Option (S → Bytes → ℤ × S × Bytes) → S → ℤ × S × Queue
traverse q none s = (minus_one, s, q)
traverse q (some callback) s =
    if q.byte == 0
    then (minus_one, s, q)
    else let (rc, s', all) = traverse_loop callback q.byte q.max q.size q.head q.all s in
      (rc, s', record q { all = all })
