-- ===== src/Sync/WaitGroup/Laws.antt =====
-- The counter of a wait group, and when its waits end.
use coter.Base.{
  ℕ, zero, suc, ◌+◌, ◌-◌, ◌^◌, ◌<◌, ◌≤◌, ◌≡◌, ◌≢◌, ◌⊎◌, inl, inr, refl, arith, true, false, Option,
  none, some, List, [], ◌∷◌, ℤ, pos, negsuc, leb, ltb, ◌==◌, if◌then◌else◌, if_intro,
}
use coter.Sync.WaitGroup.{
  WaitGroup, Wake, Ended, ended, waiting, set_counter, add, finish, wait, wait_until, wait_for,
}

-- as many calls of ct_waitgroup_done
unfoldable pub finish_times : ℕ → WaitGroup → Option WaitGroup
finish_times zero wg = some wg
finish_times (suc n) wg = elim (finish wg) [ none ↦ none | some (_, wg') ↦ finish_times n wg' ]

-- A call with a task left takes one off and broadcasts with the last.
finish_lem :
    (n : ℕ)
    → suc n < 2 ^ 32
    → finish (record { counter = suc n }) ≡ some (n == 0, record { counter = n })
unfolding finish add set_counter
finish_lem n h = let e : suc n - 1 ≡ n = omega arith in ground arith

counts_down :
    (k : ℕ) → k < 2 ^ 32 → finish_times k (record { counter = k }) ≡ some (record { counter = 0 })
unfolding finish_times
counts_down zero p = refl
counts_down (suc k) p = rw (finish_times, finish_lem k p) (counts_down k (omega arith))

-- After ct_waitgroup_add of `n` to a wait group with no tasks, `n` calls of ct_waitgroup_done end
-- with none again. The call that takes the last task off broadcasts, one that leaves tasks does not,
-- and one more call aborts.
pub done_after_add :
    (n : ℕ)
    → n < 2 ^ 32
    → (add (record { counter = 0 }) (pos n) ≡ some (n == 0, record { counter = n }))
      × (finish_times n (record { counter = n }) ≡ some (record { counter = 0 }))
      × (((k : ℕ) × (n ≡ suc k)
            × (finish (record { counter = n }) ≡ some (k == 0, record { counter = k })))
          ⊎ ((n ≡ 0) × (finish (record { counter = n }) ≡ none)))
unfolding add set_counter finish
done_after_add zero h = (ground arith, counts_down zero h, inr (refl, ground arith))
done_after_add (suc n) h = (ground arith, counts_down (suc n) h, inl (n, refl, finish_lem n h))

-- a wait before which the clock had reached the deadline
abbrev pub Expires : ℕ → List Wake → Type 0
Expires deadline [] = ⊥
Expires deadline (w ∷ ws) = (deadline ≤ w.now) ⊎ Expires deadline ws

-- ended with an answer that is true only where no task is left
abbrev pub Sound : Ended → Type 0
Sound waiting = Unit
Sound (ended answer wg) = answer ≡ (if ltb 0 wg.counter then false else true)

wait-Sound : (wg : WaitGroup) (ws : List Wake) → Sound (wait wg ws)
unfolding wait
wait-Sound wg [] = if_intro Sound (ltb 0 wg.counter) _ _ (λ _. tt) (λ e. ground arith)
wait-Sound wg (w ∷ ws) =
    if_intro Sound (ltb 0 wg.counter) _ _ (λ _. wait-Sound w.after ws) (λ e. ground arith)

wait_until-Sound :
    (deadline : ℕ) (wg : WaitGroup) (ws : List Wake) → Sound (wait_until deadline wg ws)
unfolding wait_until
wait_until-Sound deadline wg [] =
    if_intro Sound (ltb 0 wg.counter) _ _ (λ _. tt) (λ e. ground arith)
wait_until-Sound deadline wg (w ∷ ws) =
    if_intro Sound (ltb 0 wg.counter) _ _
      (λ e.
        if_intro Sound (leb deadline w.now) _ _ (λ _. ground arith)
          (λ _. wait_until-Sound deadline w.after ws))
      (λ e. ground arith)

-- ct_waitgroup_wait_for that ends, whatever the other threads do: it answers true exactly if no task
-- is left where it ends, and leaves the counter alone.
pub wait_for-Sound :
    (wg : WaitGroup) (timeout_ms : ℤ) (start : ℕ) (ws : List Wake)
    → Sound (wait_for wg timeout_ms start ws)
unfolding wait_for
wait_for-Sound wg (pos n) start ws = wait_until-Sound (start + n) wg ws
wait_for-Sound wg (negsuc n) start ws = wait-Sound wg ws

-- ct_waitgroup_wait_for with a limit has ended at the latest when the clock reaches the deadline.
pub wait_for-ends :
    (wg : WaitGroup) (n start : ℕ) (ws : List Wake)
    → Expires (start + n) ws
    → wait_for wg (pos n) start ws ≢ waiting
unfolding wait_for wait_until
wait_for-ends wg n start [] e = absurd e
wait_for-ends wg n start (w ∷ ws) (inl e) = ground arith
wait_for-ends wg n start (w ∷ ws) (inr e) = ground (arith, wait_for-ends w.after n start ws e)
