-- ===== src/Sync/WaitGroup.antt =====
-- sync/src/waitgroup.c: a counter of tasks that threads wait for.
--
-- As for the message queue, each stretch under the mutex is one step on the shared state, and a call
-- that waits takes the list of what its waits come back with.
pub mod Laws
use coter.Base.{
  ℕ, suc, ◌+◌, ◌-◌, ◌^◌, Bool, true, false, Option, none, some, List, [], ◌∷◌, ℤ, pos, negsuc,
  minus_one, leb, ltb, ◌==◌, if◌then◌else◌,
}

-- `ct_waitgroup_t`, without the mutex and the condition variable
pub record WaitGroup : Type 0 where
  pub counter : ℕ

-- `mutex` and `cond` say whether ct_mutex_init and ct_cond_init return 0.
unfoldable pub init : WaitGroup → Bool → Bool → ℤ × WaitGroup
init wg mutex cond =
    if mutex
    then (if cond then (pos 0, record wg { counter = 0 }) else (minus_one, wg))
    else (minus_one, wg)

-- The state after a change, and whether it broadcasts; `none` is CT_ABORT.
unfoldable pub set_counter : ℕ → Option (Bool × WaitGroup)
set_counter next =
    if ltb (2 ^ 32 - 1) next then none else some (next == 0, record { counter = next })

unfoldable pub add : WaitGroup → ℤ → Option (Bool × WaitGroup)
add wg (pos n) = set_counter (wg.counter + n)
add wg (negsuc n) = if ltb wg.counter (suc n) then none else set_counter (wg.counter - suc n)

-- `ct_waitgroup_done`
unfoldable pub finish : WaitGroup → Option (Bool × WaitGroup)
finish wg = add wg minus_one

-- what one wait comes back with: the clock before it, and the state after it
pub record Wake : Type 0 where
  pub now : ℕ
  pub after : WaitGroup

-- How a wait ends: with an answer, in a state, or the wakes given do not suffice.
pub data Ended : Type 0 where
  ended : Bool → WaitGroup → Ended
  waiting : Ended

unfoldable pub wait : WaitGroup → List Wake → Ended
wait wg [] = if ltb 0 wg.counter then waiting else ended true wg
wait wg (w ∷ ws) = let rest = wait w.after ws in if ltb 0 wg.counter then rest else ended true wg

unfoldable pub wait_until : ℕ → WaitGroup → List Wake → Ended
wait_until deadline wg [] = if ltb 0 wg.counter then waiting else ended true wg
wait_until deadline wg (w ∷ ws) =
    let rest = wait_until deadline w.after ws in
    if ltb 0 wg.counter
    then (if leb deadline w.now then ended false wg else rest)
    else ended true wg

-- The clock read at the start is `start`.
unfoldable pub wait_for : WaitGroup → ℤ → ℕ → List Wake → Ended
wait_for wg (negsuc _) start ws = wait wg ws
wait_for wg (pos n) start ws = wait_until (start + n) wg ws
