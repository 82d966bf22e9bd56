-- ===== src/Thread/Tests.antt =====
-- Concrete runs of the thread pool.
use coter.Base.{ℕ, ◌≡◌, refl, inl, inr, arith, true, false, [], ◌∷◌, ◌++◌, List}
use coter.Thread.Pool.{
  create, may_destroy, close, submit_round, submit_wake, worker_turn, worker_wake, retire_takes,
  retire_ends,
}
use coter.Thread.Pool.System.{
  System, Move, submits, resumes, turns, finishes, retires, shuts, wakes, move, moves, fresh,
}
use coter.Thread.Pool.Inv.{IsValid, fresh-IsValid, moves-IsValid}
use coter.Thread.Pool.Service.{IsServed, Calm, moves-IsServed, accepted_never_run}

-- a task is run, another waits for a slot and is then run too
abbrev busy : List (Move ℕ)
busy =
    submits true 7
    ∷ submits true 8
    ∷ turns
    ∷ resumes true 8
    ∷ finishes
    ∷ turns
    ∷ shuts
    ∷ finishes
    ∷ turns
    ∷ []

moves-IsValid_example : IsValid (moves (fresh 2 1 false) busy)
moves-IsValid_example = moves-IsValid (fresh 2 1 false) busy (fresh-IsValid 2 1 false)

Calm-busy : Calm (fresh 2 1 false) busy
unfolding move create submit_round submit_wake worker_turn close retire_ends
Calm-busy = (refl, (refl, (refl, tt)))

fresh-IsServed : IsServed (fresh {A = ℕ} 2 1 false)
unfolding create
fresh-IsServed = inl refl

moves-IsServed_example : IsServed (moves (fresh 2 1 false) busy)
moves-IsServed_example =
    moves-IsServed (fresh 2 1 false) busy (fresh-IsValid 2 1 false) Calm-busy fresh-IsServed

-- the second worker of a pool of one, on its way out, joins the first
abbrev last_leaving : System ℕ
last_leaving = record {
  pool = record {
    queue = [];
    retired = 0;
    capacity = 1;
    live = 1;
    waiting = 0;
    blocked = 0;
    queued = 0;
    is_closed = false;
    max_tasks = 0;
    non_blocking = false;
  };
  ready = 0;
  idle = 0;
  running = 0;
  leaving = 1;
  accepted = 1 ∷ 2 ∷ [];
  started = 1 ∷ 2 ∷ [];
}

abbrev serve : ℕ → List (Move ℕ)
serve task = submits true task ∷ turns ∷ finishes ∷ turns ∷ wakes true ∷ []

reaches_last_leaving : moves (fresh 1 0 false) (serve 1 ++ serve 2) ≡ last_leaving
unfolding moves move create submit_round submit_wake worker_turn worker_wake retire_takes
    retire_ends
reaches_last_leaving = refl

last_leaving-IsValid : IsValid last_leaving
last_leaving-IsValid = record {
  counted = refl;
  waiters = refl;
  tasks = refl;
  within = inr (omega arith);
  bounded = inl refl;
  order = refl;
}

accepted_never_run_example :
    let t = moves last_leaving (submits true 3 ∷ retires ∷ []) in
    (t.accepted ≡ 1 ∷ 2 ∷ 3 ∷ [])
    × (t.started ≡ 1 ∷ 2 ∷ [])
    × (t.pool.queue ≡ 3 ∷ [])
    × (t.pool.live ≡ 0)
    × ((t.ready ≡ 0) × (t.idle ≡ 0) × (t.running ≡ 0) × (t.leaving ≡ 0))
    × (may_destroy (move t shuts).pool ≡ true)
accepted_never_run_example =
    accepted_never_run last_leaving 3 last_leaving-IsValid refl refl refl refl refl
