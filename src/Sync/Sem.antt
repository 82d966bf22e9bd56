-- ===== src/Sync/Sem.antt =====
-- sync/src/sem.c over a mutex and a condition variable (macOS with a compiler other than clang): a
-- semaphore, as the count of its tokens.
pub mod Tokens
use coter.Base.{ℕ, ◌+◌, ◌-◌, ◌%◌, ◌^◌, Bool, true, false, List, [], ◌∷◌, ◌==◌, if◌then◌else◌}

-- the returned codes: 0 and the errno names
pub data Code : Type 0 where
  ok einval eagain etimedout : Code

abbrev pub is_ok : Code → Bool
is_ok ok = true
is_ok _ = false

-- `struct ct_sem`, without the mutex and the condition variable
pub record Sem : Type 0 where
  pub count : ℕ

-- whether the calls of the system in one call return 0
pub record Os : Type 0 where
  pub lock : Bool
  pub signal : Bool
  pub unlock : Bool

-- `mutex` and `cond` say whether these were had.
unfoldable pub init : Sem → Bool → Bool → ℕ → Code × Sem
init sem mutex cond value =
    if mutex
    then (if cond then (ok, record { count = value }) else (einval, sem))
    else (einval, sem)

-- the result of pthread_mutex_unlock at the end of a call
abbrev pub unlocked : Os → Code
unlocked os = if os.unlock then ok else einval

abbrev pub take : Sem → Sem
take sem = record { count = sem.count - 1 }

unfoldable pub trywait : Os → Sem → Code × Sem
trywait os sem =
    if os.lock
    then (if sem.count == 0 then (eagain, sem) else (unlocked os, take sem))
    else (einval, sem)

unfoldable pub post : Os → Sem → Code × Sem
post os sem =
    let after : Sem = record { count = (sem.count + 1) % 2 ^ 32 } in
    if os.lock then (if os.signal then (unlocked os, after) else (einval, after)) else (einval, sem)

-- what one wait comes back with: its code, and the state after it
pub record Wake : Type 0 where
  pub result : Code
  pub after : Sem

pub data Ended : Type 0 where
  returned : Code → Sem → Ended
  waiting : Ended

-- The test of both waits and what follows it: the call waits, or takes a token and returns.
abbrev pub stretch : Os → Sem → Ended
stretch os sem = if sem.count == 0 then waiting else returned (unlocked os) (take sem)

-- After a wait; `failed` is the code returned for that of a wait other than 0.
abbrev pub resume : (Code → Code) → Os → Wake → Ended
resume failed os w =
    if is_ok w.result then stretch os w.after else returned (failed w.result) w.after

-- The loop of both waits, from where a stretch has left it.
unfoldable pub wait_loop : (Code → Code) → Os → Ended → List Wake → Ended
wait_loop failed os (returned code sem) ws = returned code sem
wait_loop failed os waiting [] = waiting
wait_loop failed os waiting (w ∷ ws) = wait_loop failed os (resume failed os w) ws

abbrev pub always_einval : Code → Code
always_einval _ = einval

abbrev pub timeout_or_einval : Code → Code
timeout_or_einval etimedout = etimedout
timeout_or_einval _ = einval

unfoldable pub wait : Os → Sem → List Wake → Ended
unfolding wait_loop
wait os sem ws =
    if os.lock then wait_loop always_einval os (stretch os sem) ws else returned einval sem

-- The deadline is in the codes of the waits.
unfoldable pub wait_for : Os → Sem → List Wake → Ended
unfolding wait_loop
wait_for os sem ws =
    if os.lock then wait_loop timeout_or_einval os (stretch os sem) ws else returned einval sem
