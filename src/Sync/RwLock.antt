-- ===== src/Sync/RwLock.antt =====
-- sync/src/rwlock.c, the lock over a mutex and two condition variables: many readers or one writer,
-- where writers that wait hold new readers off.
--
-- Each stretch under the mutex is one step on the shared state; a call that waits takes the list of
-- what its waits come back with.
pub mod Exclusion
use coter.Base.{
  ℕ, zero, suc, ◌+◌, ◌-◌, ◌^◌, Bool, true, false, List, [], ◌∷◌, ℤ, pos, negsuc, minus_one, ◌==◌,
  ◌||◌, not, if◌then◌else◌,
}

pub data Code : Type 0 where
  ok einval ebusy eagain : Code
  system : ℤ → Code

abbrev pub is_ok : Code → Bool
is_ok ok = true
is_ok _ = false

-- `ct_rwlock_t`, without the mutex and the condition variables
pub record RwLock : Type 0 where
  pub state : ℤ
  pub waiting_writers : ℕ

-- What the calls on the mutex and the condition variables return: taking the mutex, giving it up, and
-- the signal or broadcast.
pub record Os : Type 0 where
  pub lock : Code
  pub unlock : Code
  pub signal : Code

-- `result != 0 ? result : unlock_result`
abbrev pub first_code : Code → Code → Code
first_code result unlock = if is_ok result then unlock else result

-- The codes are those of ct_mutex_init and the two calls of ct_cond_init.
unfoldable pub init : RwLock → Code → Code → Code → Code × RwLock
init l mutex read_signal write_signal =
    if is_ok mutex
    then (if is_ok read_signal
        then (if is_ok write_signal
            then (ok, record { state = pos 0; waiting_writers = 0 })
            else (write_signal, l))
        else (read_signal, l))
    else (mutex, l)

abbrev pub is_negative : ℤ → Bool
is_negative (pos _) = false
is_negative (negsuc _) = true

abbrev pub is_zero : ℤ → Bool
is_zero (pos n) = n == 0
is_zero (negsuc _) = false

-- `lock->state_ < 0 || lock->waiting_writers_ != 0`
abbrev pub bars_readers : RwLock → Bool
bars_readers l = is_negative l.state || not (l.waiting_writers == 0)

-- The test on INT_MAX and the increment.
abbrev pub one_more : ℤ → Code × ℤ
one_more (pos n) = if n == 2 ^ 31 - 1 then (eagain, pos n) else (ok, pos (suc n))
one_more (negsuc zero) = (ok, pos 0)
one_more (negsuc (suc n)) = (ok, negsuc n)

abbrev pub enter_read : Os → RwLock → Code × RwLock
enter_read os l =
    let (result, state) = one_more l.state in
    (first_code result os.unlock, record l { state = state })

abbrev pub enter_write : Os → RwLock → Code × RwLock
enter_write os l = (os.unlock, record l { state = minus_one })

-- what one wait comes back with
pub record Wake : Type 0 where
  pub result : Code
  pub after : RwLock

pub data Ended : Type 0 where
  returned : Code × RwLock → Ended
  waiting : Ended

unfoldable pub read_loop : Os → RwLock → List Wake → Ended
read_loop os l [] = if bars_readers l then waiting else returned (enter_read os l)
read_loop os l (w ∷ ws) =
    let rest = read_loop os w.after ws in
    if bars_readers l
    then (if is_ok w.result then rest else returned (w.result, w.after))
    else returned (enter_read os l)

unfoldable pub rdlock : Os → RwLock → List Wake → Ended
rdlock os l ws = if is_ok os.lock then read_loop os l ws else returned (os.lock, l)

-- While it waits, the writer is counted in `waiting_writers`.
abbrev pub woken : RwLock → RwLock
woken l = record l { waiting_writers = l.waiting_writers - 1 }

unfoldable pub write_loop : Os → RwLock → List Wake → Ended
write_loop os l [] =
    if is_zero l.state
    then returned (enter_write os l)
    else if l.waiting_writers == 2 ^ 32 - 1
    then returned (eagain, l)
    else waiting
write_loop os l (w ∷ ws) =
    let rest = write_loop os (woken w.after) ws in
    if is_zero l.state
    then returned (enter_write os l)
    else if l.waiting_writers == 2 ^ 32 - 1
    then returned (eagain, l)
    else if is_ok w.result
    then rest
    else returned (w.result, woken w.after)

unfoldable pub wrlock : Os → RwLock → List Wake → Ended
wrlock os l ws = if is_ok os.lock then write_loop os l ws else returned (os.lock, l)

-- Here `os.lock` is what ct_mutex_trylock returns.
unfoldable pub tryrdlock : Os → RwLock → Code × RwLock
tryrdlock os l =
    if is_ok os.lock then (if bars_readers l then (ebusy, l) else enter_read os l) else (os.lock, l)

unfoldable pub trywrlock : Os → RwLock → Code × RwLock
trywrlock os l =
    if is_ok os.lock
    then (if is_zero l.state then enter_write os l else (ebusy, l))
    else (os.lock, l)

abbrev pub leave_read : Os → RwLock → ℤ → Code × RwLock
leave_read os l (pos (suc n)) = (
  first_code (if n == 0 then (if l.waiting_writers == 0 then ok else os.signal) else ok) os.unlock,
  record l { state = pos n },
)
leave_read os l _ = (einval, l)

unfoldable pub rdunlock : Os → RwLock → Code × RwLock
rdunlock os l = if is_ok os.lock then leave_read os l l.state else (os.lock, l)

abbrev pub leave_write : Os → RwLock → ℤ → Code × RwLock
leave_write os l (negsuc zero) = (first_code os.signal os.unlock, record l { state = pos 0 })
leave_write os l _ = (einval, l)

unfoldable pub wrunlock : Os → RwLock → Code × RwLock
wrunlock os l = if is_ok os.lock then leave_write os l l.state else (os.lock, l)
