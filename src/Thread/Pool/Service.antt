-- ===== src/Thread/Pool/Service.antt =====
-- Whether the queue of a thread pool is always served.
use coter.Base.{
  ◌+◌, ◌-◌, ◌<◌, ◌≡◌, ◌⊎◌, inr, refl, ap, arith, Bool, true, false, not, ◌&&◌, List, [], ◌∷◌, ◌++◌,
  length, ltb, if_intro,
}
use coter.Thread.Pool.{
  Pool, success, leaves, close, may_destroy, returned, submit_round, has_slot, needs_worker,
  enqueue, submit_wake, unblocked, woken, worker_round, worker_turn, worker_wake, retire_takes,
  retire_ends, is_empty,
}
use coter.Thread.Pool.System.{
  System, Move, submits, resumes, turns, finishes, retires, shuts, wakes, move, moves, settle,
  submitted,
}
use coter.Thread.Pool.Inv.{IsValid, move-IsValid}

module _ {ℓ} {A : Type ℓ} where
  -- Where tasks are queued there is a worker that has yet to look at the queue again.
  abbrev pub IsServed : System A → Type 0
  IsServed s = (length s.pool.queue ≡ 0) ⊎ (0 < s.ready + s.idle + s.running)

  -- No task is submitted while a worker that leaves has given up the lock to join others.
  abbrev pub Calm : System A → List (Move A) → Type 0
  Calm s [] = Unit
  Calm s (submits had task ∷ ms) = (s.leaving ≡ 0) × Calm (move s (submits had task)) ms
  Calm s (resumes had task ∷ ms) = (s.leaving ≡ 0) × Calm (move s (resumes had task)) ms
  Calm s (m ∷ ms) = Calm (move s m) ms

  submit-IsServed :
      (s : System A) (had : Bool) (task : A)
      → IsValid s
      → s.leaving ≡ 0
      → IsServed s
      → IsServed (submitted task (submit_round had task s.pool) s)
  unfolding submit_round
  submit-IsServed s had task v calm h = ground arith

  turn-IsServed :
      (s : System A) (queue : List A)
      → s.pool.queue ≡ queue
      → IsServed (settle (worker_round queue s.pool) s)
  unfolding retire_takes retire_ends
  turn-IsServed s [] e = ground arith
  turn-IsServed s (task ∷ rest) e = inr (omega arith)

  length-is_empty : (queue : List A) → is_empty queue ≡ true → length queue ≡ 0
  length-is_empty [] e = refl
  length-is_empty (_ ∷ _) e = cc

  leave-IsServed : (s : System A) → length s.pool.queue ≡ 0 → IsServed (settle (leaves s.pool) s)
  unfolding retire_takes retire_ends
  leave-IsServed s e = ground arith

  move-IsServed :
      (s : System A) (m : Move A) (ms : List (Move A))
      → IsValid s
      → Calm s (m ∷ ms)
      → IsServed s
      → IsServed (move s m)
  unfolding move worker_turn worker_wake submit_wake close retire_ends
  move-IsServed s (submits had task) ms v c h = submit-IsServed s had task v c.0 h
  move-IsServed s (resumes had task) ms v c h =
      if_intro IsServed (ltb 0 s.pool.blocked) _ _
        (λ _. submit-IsServed (record s { pool = unblocked s.pool }) had task (ground arith) c.0 h)
        (λ _. h)
  move-IsServed s turns ms v c h =
      if_intro IsServed (ltb 0 s.ready) _ _
        (λ e. turn-IsServed (record s { ready = s.ready - 1 }) s.pool.queue refl) (λ _. h)
  move-IsServed s (wakes timed_out) ms v c h =
      if_intro IsServed (ltb 0 s.idle) _ _
        (λ e.
          let s' = record s { pool = woken s.pool; idle = s.idle - 1 } in
          if_intro (λ t. IsServed (settle t s'))
            (timed_out && (not s.pool.is_closed && is_empty s.pool.queue)) (leaves (woken s.pool))
            (worker_turn (woken s.pool))
            (λ f. leave-IsServed s' (length-is_empty s.pool.queue (ground arith)))
            (λ _. turn-IsServed s' s.pool.queue refl))
        (λ _. h)
  move-IsServed s finishes ms v c h = ground arith
  move-IsServed s retires ms v c h = ground arith
  move-IsServed s shuts ms v c h = ground arith

  Calm-tail :
      (s : System A) (m : Move A) (ms : List (Move A)) → Calm s (m ∷ ms) → Calm (move s m) ms
  Calm-tail s (submits had task) ms c = c.1
  Calm-tail s (resumes had task) ms c = c.1
  Calm-tail s turns ms c = c
  Calm-tail s (wakes _) ms c = c
  Calm-tail s finishes ms c = c
  Calm-tail s retires ms c = c
  Calm-tail s shuts ms c = c

  -- Over any moves of the threads in which no task is submitted while a worker that leaves has given up
  -- the lock to join others: as long as tasks are queued, some live worker is about to take the lock,
  -- waiting or running a task, and so looks at the queue again before it may leave.
  pub moves-IsServed :
      (s : System A) (ms : List (Move A))
      → IsValid s
      → Calm s ms
      → IsServed s
      → IsServed (moves s ms)
  unfolding moves
  moves-IsServed s [] v c h = h
  moves-IsServed s (m ∷ ms) v c h =
      moves-IsServed (move s m) ms (move-IsValid s m v) (Calm-tail s m ms c)
        (move-IsServed s m ms v c h)

  no_worker_made :
      (p : Pool A) (task : A)
      → p.is_closed ≡ false
      → has_slot p ≡ true
      → needs_worker p ≡ false
      → submit_round true task p ≡ returned success (enqueue task p)
  unfolding submit_round
  no_worker_made p task is_open slot none = simp (is_open, slot, none)

  -- The last worker of an open pool of capacity 1 is leaving and has given up the lock to join others. A
  -- task submitted then is accepted with no worker made, and the worker then goes. The task is still in
  -- the queue, no worker is left in any phase, and once closed the pool may be destroyed.
  pub accepted_never_run :
      (s : System A) (task : A)
      → IsValid s
      → s.pool.queue ≡ []
      → s.pool.capacity ≡ 1
      → s.pool.is_closed ≡ false
      → s.pool.blocked ≡ 0
      → s.leaving ≡ 1
      → let t = moves s (submits true task ∷ retires ∷ []) in
        (t.accepted ≡ s.accepted ++ task ∷ [])
        × (t.started ≡ s.started)
        × (t.pool.queue ≡ task ∷ [])
        × (t.pool.live ≡ 0)
        × ((t.ready ≡ 0) × (t.idle ≡ 0) × (t.running ≡ 0) × (t.leaving ≡ 0))
        × (may_destroy (move t shuts).pool ≡ true)
  unfolding moves move may_destroy close retire_ends
  accepted_never_run s task v empty one is_open none_blocked one_leaving =
      let no_tasks : length s.pool.queue ≡ 0 = ap length empty in
      let slot : has_slot s.pool ≡ true = ground arith in
      let counts : (s.ready ≡ 0) × (s.idle ≡ 0) × (s.running ≡ 0) × (s.pool.live ≡ 1) =
        ground arith in
      let none_made : needs_worker s.pool ≡ false = ground arith in
      let p = s.pool in
      let step : move s (submits true task) ≡ record s {
        pool = enqueue task p;
        ready = s.ready + (p.live - p.live);
        accepted = s.accepted ++ task ∷ [];
      } =
        ap (λ r. submitted task r s) (no_worker_made s.pool task is_open slot none_made) in
      let one_left : ltb 0 s.leaving ≡ true = ground arith in
      rw step (
        rw one_left
          (refl, refl, ap (λ q. q ++ task ∷ []) empty, ground arith, ground arith, ground arith))
