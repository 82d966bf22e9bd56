-- ===== src/Thread/Pool.antt =====
-- thread/src/thpool.c: a pool of worker threads that grows with the work and shrinks when idle.
--
-- Each stretch of a thread between taking and giving up the lock is one function of the pool's state.
-- The counters count threads and tasks in memory, so that size_t does not wrap.
pub mod System
pub mod Inv
pub mod Service
use coter.Base.{
  ℕ, zero, suc, ◌+◌, ◌-◌, Bool, true, false, not, List, [], ◌∷◌, ◌++◌, ltb, ◌==◌, ◌&&◌, ◌||◌,
  if◌then◌else◌,
}

-- `CT_THPOOL_ERROR_*`
pub data Code : Type 0 where
  success closed invalid_arg mem_alloc overload : Code

-- `struct ct_thpool`, with the tasks in the queue and the number of workers that wait to be joined.
pub record Pool {ℓ} (A : Type ℓ) : Type ℓ where
  pub queue : List A
  pub retired : ℕ
  pub capacity : ℕ
  pub live : ℕ
  pub waiting : ℕ
  pub blocked : ℕ
  pub queued : ℕ
  pub is_closed : Bool
  pub max_tasks : ℕ
  pub non_blocking : Bool

-- How a stretch of ct_thpool_submit ends: the call returns, or it waits for a slot.
pub data Submitted {ℓ} (A : Type ℓ) : Type ℓ where
  returned : Code → Pool A → Submitted A
  blocked : Pool A → Submitted A

-- How a stretch of a worker ends: it waits for a task, runs one, or goes on to retire.
pub data Turn {ℓ} (A : Type ℓ) : Type ℓ where
  waits : Pool A → Turn A
  runs : A → Pool A → Turn A
  leaves : Pool A → Turn A

module _ {ℓ} {A : Type ℓ} where
  -- ct_thpool_create with the configuration's limits
  unfoldable pub create : ℕ → ℕ → Bool → Pool A
  create size max_tasks non_blocking = record {
    queue = [];
    retired = 0;
    capacity = size;
    live = 0;
    waiting = 0;
    blocked = 0;
    queued = 0;
    is_closed = false;
    max_tasks = max_tasks;
    non_blocking = non_blocking;
  }

  unfoldable pub close : Pool A → Pool A
  close self = record self { is_closed = true }

  -- the test under which ct_thpool_destroy stops to wait
  unfoldable pub may_destroy : Pool A → Bool
  may_destroy self = not (ltb 0 self.live || ltb 0 self.blocked)

  abbrev pub enqueue : A → Pool A → Pool A
  enqueue task self = record self { queue = self.queue ++ task ∷ []; queued = suc self.queued }

  -- `thpool_worker_create`: whether memory and a thread were had is an argument.
  abbrev pub worker_create : Bool → Pool A → Code × Pool A
  worker_create had self =
      if had then (success, record self { live = suc self.live }) else (mem_alloc, self)

  abbrev pub needs_worker : Pool A → Bool
  needs_worker self = self.waiting == 0 && (self.capacity == 0 || ltb self.live self.capacity)

  abbrev pub has_slot : Pool A → Bool
  has_slot self = self.max_tasks == 0 || ltb self.queued self.max_tasks

  -- One round of the loop of ct_thpool_submit.
  unfoldable pub submit_round : Bool → A → Pool A → Submitted A
  submit_round had task self =
      if self.is_closed
      then returned closed self
      else if has_slot self
      then (if needs_worker self
          then (if had
              then returned success (enqueue task (worker_create had self).1)
              else returned mem_alloc self)
          else returned success (enqueue task self))
      else if self.non_blocking
      then returned overload self
      else blocked (record self { blocked = suc self.blocked })

  -- The call up to its first wait; `routine` and `task_memory` say whether these were had.
  unfoldable pub submit : Bool → Bool → Bool → A → Pool A → Submitted A
  submit routine task_memory had task self =
      if routine
      then (if task_memory then submit_round had task self else returned mem_alloc self)
      else returned invalid_arg self

  -- The counts after a wait of a submitting thread and of a worker.
  abbrev pub unblocked : Pool A → Pool A
  unblocked self = record self { blocked = self.blocked - 1 }

  abbrev pub woken : Pool A → Pool A
  woken self = record self { waiting = self.waiting - 1 }

  -- What it does after a wait.
  unfoldable pub submit_wake : Bool → A → Pool A → Submitted A
  unfolding submit_round
  submit_wake had task self = submit_round had task (unblocked self)

  -- A worker with the lock, from the top of its loop.
  abbrev pub worker_round : List A → Pool A → Turn A
  worker_round [] self =
      if self.is_closed then leaves self else waits (record self { waiting = suc self.waiting })
  worker_round (task ∷ rest) self =
      runs task (record self { queue = rest; queued = self.queued - 1 })

  unfoldable pub worker_turn : Pool A → Turn A
  worker_turn self = worker_round self.queue self

  abbrev pub is_empty : List A → Bool
  is_empty [] = true
  is_empty (_ ∷ _) = false

  -- A worker after its wait, which timed out or not.
  unfoldable pub worker_wake : Bool → Pool A → Turn A
  unfolding worker_turn
  worker_wake timed_out self =
      if timed_out && (not self.is_closed && is_empty self.queue)
      then leaves (woken self)
      else worker_turn (woken self)

  -- `thpool_worker_retire`: where others wait to be joined it first takes these off and gives the lock
  -- up to join them; in the end it is counted off itself.
  unfoldable pub retire_takes : Pool A → Pool A
  retire_takes self = record self { retired = 0 }

  unfoldable pub retire_ends : Pool A → Pool A
  retire_ends self = record self { retired = suc self.retired; live = self.live - 1 }
