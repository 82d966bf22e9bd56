-- ===== src/Sync/MsgQueue.antt =====
-- sync/src/msgqueue.c: a bounded queue shared by threads, with blocking, timed and immediate calls.
--
-- Each stretch of a call between taking and giving up the mutex is one step on the shared state. A
-- wait on a condition variable gives the mutex up: a call takes the list of what its waits return
-- (the state that the other threads left, the code of the wait, the clock read before it).
pub mod Start
pub mod Wait
pub mod Trace
use coter.Base.{
  ℕ, ◌+◌, ◌==◌, Bool, true, false, Option, none, some, List, [], ◌∷◌, ℤ, pos, negsuc, Bytes, leb,
  ltb, ◌||◌, if◌then◌else◌,
}
use coter.Container.Queue
use coter.Container.Queue.{Queue}

-- the returned codes: 0, the errno names, and codes of the system's own
pub data Code : Type 0 where
  ok einval epipe eagain etimedout : Code
  system : ℤ → Code

abbrev pub is_ok : Code → Bool
is_ok ok = true
is_ok _ = false

-- calls on the two condition variables
pub data Signal : Type 0 where
  signal_not_empty signal_not_full broadcast_not_empty broadcast_not_full : Signal

-- `ct_msgqueue_t`; the mutex and the condition variables have no state of their own here.
pub record MsgQueue : Type 0 where
  pub queue : Queue
  pub is_shut : Bool

-- The codes that ct_mutex_init and the two calls of ct_cond_init return are arguments.
unfoldable pub init : MsgQueue → Option Bytes → ℕ → ℕ → Code → Code → Code → Code × MsgQueue
init self none byte max mutex not_empty not_full = (einval, self)
init self (some buffer) byte max mutex not_empty not_full =
    if byte == 0 || max == 0
    then (einval, self)
    else let started : MsgQueue = record self {
      queue = Queue.init self.queue (some buffer) byte max;
    } in
      if is_ok mutex
      then (if is_ok not_empty
          then (if is_ok not_full
              then (ok, record started { is_shut = false })
              else (not_full, started))
          else (not_empty, started))
      else (mutex, started)

unfoldable pub close : MsgQueue → List Signal × MsgQueue
close self =
    if self.is_shut
    then ([], self)
    else (broadcast_not_empty ∷ broadcast_not_full ∷ [], record self { is_shut = true })

-- `ct_msgqueue_destroy` gives up the mutex and the condition variables, which have no state here.
abbrev pub destroy : MsgQueue → List Signal × MsgQueue
destroy self = close self

abbrev pub is_empty : MsgQueue → Bool
is_empty self = Queue.is_empty self.queue

abbrev pub is_full : MsgQueue → Bool
is_full self = Queue.is_full self.queue

-- `ct_msgqueue_size`
abbrev pub count : MsgQueue → ℕ
count self = self.queue.size

unfoldable pub try_push : MsgQueue → Option Bytes → Code × List Signal × MsgQueue
try_push self none = (einval, [], self)
try_push self (some item) =
    if self.is_shut
    then (epipe, [], self)
    else if Queue.is_full self.queue
    then (eagain, [], self)
    else (
      ok,
      signal_not_empty ∷ [],
      record self { queue = (Queue.enqueue self.queue (some item)).1 },
    )

-- `item` says whether the destination is not null; what is written there comes back.
unfoldable pub try_pop : MsgQueue → Bool → Code × Option Bytes × List Signal × MsgQueue
try_pop self item =
    if item
    then (if self.is_shut
        then (epipe, none, [], self)
        else if Queue.is_empty self.queue
        then (eagain, none, [], self)
        else let (_, out, q) = Queue.dequeue self.queue true in
          (ok, out, signal_not_full ∷ [], record self { queue = q }))
    else (einval, none, [], self)

-- what one wait of a call comes back with
pub record Wake : Type 0 where
  pub now : ℕ
  pub result : Code
  pub after : MsgQueue

-- How a waiting loop ends: it returns a code, in a state, or the waits given do not suffice.
pub data Waited : Type 0 where
  returned : Code → MsgQueue → Waited
  waiting : Waited

-- The loop of msgqueue_wait_not_full and msgqueue_wait_not_empty, over the waits.
module _ (blocks : Queue → Bool) (timeout_ms : ℤ) (deadline : ℕ) where
  unfoldable pub wait_loop : List Wake → MsgQueue → Waited
  wait_loop [] self =
      if blocks self.queue
      then (if self.is_shut then returned epipe self else elim timeout_ms [
        | pos n ↦ if n == 0 then returned etimedout self else waiting
        | negsuc _ ↦ waiting
      ])
      else returned (if self.is_shut then epipe else ok) self
  wait_loop (w ∷ ws) self =
      let rest = wait_loop ws w.after in
      let resumed = if is_ok w.result then rest else returned w.result w.after in
      if blocks self.queue
      then (if self.is_shut then returned epipe self else elim timeout_ms [
        | pos n ↦
            if n == 0
            then returned etimedout self
            else if leb deadline w.now
            then returned etimedout self
            else resumed
        | negsuc _ ↦ resumed
      ])
      else returned (if self.is_shut then epipe else ok) self

-- `timeout_ms > 0 ? ct_gettick_ms() + timeout_ms : 0`; the sum is taken to fit an int64_t.
abbrev pub deadline_at : ℕ → ℤ → ℕ
deadline_at start (pos n) = if n == 0 then 0 else start + n
deadline_at start (negsuc _) = 0

-- The last stretch of a blocking call: it acts if the wait returned 0.
pub data Pushed : Type 0 where
  done : Code → List Signal → MsgQueue → Pushed
  blocked : Pushed

abbrev pub finish_push : Bytes → Waited → Pushed
finish_push item waiting = blocked
finish_push item (returned code self) =
    if is_ok code
    then done code (signal_not_empty ∷ [])
        (record self { queue = (Queue.enqueue self.queue (some item)).1 })
    else done code [] self

-- The clock read at the start is `start`.
unfoldable pub push_for : MsgQueue → Option Bytes → ℕ → ℤ → List Wake → Pushed
push_for self none start timeout_ms ws = done einval [] self
push_for self (some item) start timeout_ms ws =
    if self.is_shut
    then done epipe [] self
    else finish_push item
        (wait_loop Queue.is_full timeout_ms (deadline_at start timeout_ms) ws self)

-- `ct_msgqueue_push` waits without a limit.
unfoldable pub push : MsgQueue → Option Bytes → List Wake → Pushed
unfolding push_for
push self item ws = push_for self item 0 (negsuc 0) ws

pub data Popped : Type 0 where
  done : Code → Option Bytes → List Signal → MsgQueue → Popped
  blocked : Popped

abbrev pub finish_pop : Waited → Popped
finish_pop waiting = Popped.blocked
finish_pop (returned code self) =
    if is_ok code
    then (let (_, out, q) = Queue.dequeue self.queue true in
        Popped.done code out (signal_not_full ∷ []) (record self { queue = q }))
    else Popped.done code none [] self

unfoldable pub pop_for : MsgQueue → Bool → ℕ → ℤ → List Wake → Popped
pop_for self item start timeout_ms ws =
    if item
    then (if self.is_shut
        then Popped.done epipe none [] self
        else finish_pop
            (wait_loop Queue.is_empty timeout_ms (deadline_at start timeout_ms) ws self))
    else Popped.done einval none [] self

unfoldable pub pop : MsgQueue → Bool → List Wake → Popped
unfolding pop_for
pop self item ws = pop_for self item 0 (negsuc 0) ws
