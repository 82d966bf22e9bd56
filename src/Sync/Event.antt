-- ===== src/Sync/Event.antt =====
-- sync/src/event.c over a mutex and a condition variable (not on Windows): an event that wakes one
-- waiting thread and resets itself.
pub mod Laws
use coter.Base.{ℕ, ◌+◌, Bool, true, false, List, [], ◌∷◌, ℤ, leb, ◌==◌, if◌then◌else◌}

pub data Code : Type 0 where
  ok etimedout : Code
  system : ℤ → Code

abbrev pub is_ok : Code → Bool
is_ok ok = true
is_ok _ = false

-- `ct_event_t`, without the mutex and the condition variable
pub record Event : Type 0 where
  pub count : ℕ

-- `mutex` and `cond` are what ct_mutex_init and ct_cond_init return.
unfoldable pub init : Event → Code → Code → Code × Event
init event mutex cond =
    if is_ok mutex
    then (if is_ok cond then (ok, record event { count = 0 }) else (cond, event))
    else (mutex, event)

-- `signalled` is what ct_cond_signal returns.
unfoldable pub signal : Event → Code → Code × Event
signal event signalled = (signalled, record event { count = 1 })

unfoldable pub reset : Event → Code × Event
reset event = (ok, record event { count = 0 })

-- what one wait comes back with: the clock before it, its code, and the state after it
pub record Wake : Type 0 where
  pub now : ℕ
  pub result : Code
  pub after : Event

pub data Ended : Type 0 where
  returned : Code → Event → Ended
  waiting : Ended

-- the end of both waits: `if (result == 0) { event->count_ = 0; }`
abbrev pub taken : Code → Event → Ended
taken result event = returned result (if is_ok result then record event { count = 0 } else event)

unfoldable pub wait : Event → List Wake → Ended
wait event [] = if event.count == 0 then waiting else taken ok event
wait event (w ∷ ws) =
    let rest = wait w.after ws in
    if event.count == 0
    then (if is_ok w.result then rest else taken w.result w.after)
    else taken ok event

unfoldable pub wait_until : ℕ → Event → List Wake → Ended
wait_until deadline event [] = if event.count == 0 then waiting else taken ok event
wait_until deadline event (w ∷ ws) =
    let rest = wait_until deadline w.after ws in
    if event.count == 0
    then (if leb deadline w.now
        then taken etimedout event
        else if is_ok w.result
        then rest
        else taken w.result w.after)
    else taken ok event

-- The clock read at the start is `start`.
unfoldable pub timedwait : Event → ℕ → ℕ → List Wake → Ended
timedwait event timeout_ms start ws = wait_until (start + timeout_ms) event ws
