-- ===== src/Thread/Pool/System.antt =====
-- A thread pool with its threads: every stretch that any of them may make next.
use coter.Base.{ℕ, suc, ◌+◌, ◌-◌, Bool, List, [], ◌∷◌, ◌++◌, ltb, ◌==◌, if◌then◌else◌}
use coter.Thread.Pool.{
  Pool, Code, success, Submitted, returned, blocked, Turn, waits, runs, leaves, create, close,
  submit_round, submit_wake, unblocked, woken, worker_turn, worker_wake, retire_takes, retire_ends,
}

-- The pool, the workers in each phase (about to take the lock, waiting for a task, running one, joining
-- others on their way out), and the tasks that were accepted and those that were started, in order.
pub record System {ℓ} (A : Type ℓ) : Type ℓ where
  pub pool : Pool A
  pub ready : ℕ
  pub idle : ℕ
  pub running : ℕ
  pub leaving : ℕ
  pub accepted : List A
  pub started : List A

-- A submit, the same after a wait; a ready worker's stretch, an idle worker's after its wait, the end of
-- a task, the end of a worker that joined others; and a close.
pub data Move {ℓ} (A : Type ℓ) : Type ℓ where
  submits resumes : Bool → A → Move A
  turns finishes retires shuts : Move A
  wakes : Bool → Move A

module _ {ℓ} {A : Type ℓ} where
  abbrev pub accept : A → Code → Pool A → System A → System A
  accept task success p s = record s {
    pool = p;
    ready = s.ready + (p.live - s.pool.live);
    accepted = s.accepted ++ task ∷ [];
  }
  accept task _ p s = record s { pool = p }

  abbrev pub submitted : A → Submitted A → System A → System A
  submitted task (returned code p) s = accept task code p s
  submitted task (blocked p) s = record s { pool = p }

  abbrev pub settle : Turn A → System A → System A
  settle (waits p) s = record s { pool = p; idle = suc s.idle }
  settle (runs task p) s = record s {
    pool = p;
    running = suc s.running;
    started = s.started ++ task ∷ [];
  }
  settle (leaves p) s =
      if p.retired == 0
      then record s { pool = retire_ends p }
      else record s { pool = retire_takes p; leaving = suc s.leaving }

  -- A move that no thread can make changes nothing.
  unfoldable pub move : System A → Move A → System A
  move s (submits had task) = submitted task (submit_round had task s.pool) s
  move s (resumes had task) =
      if ltb 0 s.pool.blocked
      then submitted task (submit_wake had task s.pool) (record s { pool = unblocked s.pool })
      else s
  move s turns =
      if ltb 0 s.ready then settle (worker_turn s.pool) (record s { ready = s.ready - 1 }) else s
  move s (wakes timed_out) =
      if ltb 0 s.idle
      then settle (worker_wake timed_out s.pool)
          (record s { pool = woken s.pool; idle = s.idle - 1 })
      else s
  move s finishes =
      if ltb 0 s.running then record s { running = s.running - 1; ready = suc s.ready } else s
  move s retires =
      if ltb 0 s.leaving then record s { pool = retire_ends s.pool; leaving = s.leaving - 1 } else s
  move s shuts = record s { pool = close s.pool }

  unfoldable pub moves : System A → List (Move A) → System A
  moves s [] = s
  moves s (m ∷ ms) = moves (move s m) ms

  -- a new pool
  abbrev pub fresh : ℕ → ℕ → Bool → System A
  fresh size max_tasks non_blocking = record {
    pool = create size max_tasks non_blocking;
    ready = 0;
    idle = 0;
    running = 0;
    leaving = 0;
    accepted = [];
    started = [];
  }
