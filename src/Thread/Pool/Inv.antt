-- ===== src/Thread/Pool/Inv.antt =====
-- What holds of a thread pool at every moment.
use coter.Base.{
  ℕ, suc, ◌+◌, ◌-◌, ◌≤◌, ◌≡◌, ◌⊎◌, refl, ap, ◌∙◌, arith, Bool, not, ◌&&◌, List, [], ◌∷◌, ◌++◌,
  append_assoc, length, length-append, ltb, if_intro,
}
use coter.Thread.Pool.{
  leaves, create, close, submit_round, submit_wake, unblocked, woken, worker_round, is_empty,
  worker_turn, worker_wake, retire_takes, retire_ends,
}
use coter.Thread.Pool.System.{
  System, Move, submits, resumes, turns, finishes, retires, shuts, wakes, move, moves, settle,
  submitted, fresh,
}

pub record IsValid {ℓ} {A : Type ℓ} (s : System A) : Type ℓ where
  pub counted : s.pool.live ≡ s.ready + s.idle + s.running + s.leaving
  pub waiters : s.pool.waiting ≡ s.idle
  pub tasks : s.pool.queued ≡ length s.pool.queue
  pub within : (s.pool.capacity ≡ 0) ⊎ (s.pool.live ≤ s.pool.capacity)
  pub bounded : (s.pool.max_tasks ≡ 0) ⊎ (s.pool.queued ≤ s.pool.max_tasks)
  pub order : s.accepted ≡ s.started ++ s.pool.queue

module _ {ℓ} {A : Type ℓ} where
  pub fresh-IsValid :
      (size max_tasks : ℕ) (non_blocking : Bool)
      → IsValid (fresh {A = A} size max_tasks non_blocking)
  unfolding create
  fresh-IsValid size max_tasks non_blocking = ground arith

  snoc-order :
      (xs ys zs : List A) (task : A) → xs ≡ ys ++ zs → xs ++ task ∷ [] ≡ ys ++ (zs ++ task ∷ [])
  snoc-order xs ys zs task e = ap (λ l. l ++ task ∷ []) e ∙ append_assoc ys zs (task ∷ [])

  submit_round-IsValid :
      (s : System A) (had : Bool) (task : A)
      → IsValid s
      → IsValid (submitted task (submit_round had task s.pool) s)
  unfolding submit_round
  submit_round-IsValid s had task v = ground (
    arith,
    snoc-order s.accepted s.started s.pool.queue task v.order,
    length-append s.pool.queue (task ∷ []),
  )

  -- A worker off the counts of its phase takes a turn.
  turn-IsValid :
      (s : System A) (queue : List A)
      → s.pool.queue ≡ queue
      → IsValid (record s { ready = suc s.ready })
      → IsValid (settle (worker_round queue s.pool) s)
  unfolding retire_takes retire_ends
  turn-IsValid s [] e v = ground arith
  turn-IsValid s (task ∷ rest) e v = ground (
    arith,
    ap length e,
    v.order ∙ ap (λ q. s.started ++ q) e,
    append_assoc s.started (task ∷ []) rest,
  )

  leave-IsValid :
      (s : System A)
      → IsValid (record s { ready = suc s.ready })
      → IsValid (settle (leaves s.pool) s)
  unfolding retire_takes retire_ends
  leave-IsValid s v = ground arith

  pub move-IsValid : (s : System A) (m : Move A) → IsValid s → IsValid (move s m)
  unfolding move worker_turn worker_wake submit_wake close retire_ends
  move-IsValid s (submits had task) v = submit_round-IsValid s had task v
  move-IsValid s (resumes had task) v =
      if_intro IsValid (ltb 0 s.pool.blocked) _ _
        (λ _. submit_round-IsValid (record s { pool = unblocked s.pool }) had task (ground arith))
        (λ _. v)
  move-IsValid s turns v =
      if_intro IsValid (ltb 0 s.ready) _ _
        (λ e. turn-IsValid (record s { ready = s.ready - 1 }) s.pool.queue refl (ground arith))
        (λ _. v)
  move-IsValid s (wakes timed_out) v =
      if_intro IsValid (ltb 0 s.idle) _ _
        (λ e.
          let s' = record s { pool = woken s.pool; idle = s.idle - 1 } in
          let valid : IsValid (record s' { ready = suc s'.ready }) = ground arith in
          if_intro (λ t. IsValid (settle t s'))
            (timed_out && (not s.pool.is_closed && is_empty s.pool.queue)) (leaves (woken s.pool))
            (worker_turn (woken s.pool)) (λ _. leave-IsValid s' valid)
            (λ _. turn-IsValid s' s.pool.queue refl valid))
        (λ _. v)
  move-IsValid s finishes v = ground arith
  move-IsValid s retires v = ground arith
  move-IsValid s shuts v = ground arith

  -- Whatever the threads of a pool do, and in whichever order: the live workers are those about to take
  -- the lock, waiting, running a task or leaving, and never more than the capacity; the tasks held are
  -- never more than the maximum; and the tasks accepted, in order, are those started followed by those
  -- still in the queue, so that none is lost, run twice or overtaken.
  pub moves-IsValid : (s : System A) (ms : List (Move A)) → IsValid s → IsValid (moves s ms)
  unfolding moves
  moves-IsValid s [] v = v
  moves-IsValid s (m ∷ ms) v = moves-IsValid (move s m) ms (move-IsValid s m v)
