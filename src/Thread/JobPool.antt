-- ===== src/Thread/JobPool.antt =====
-- thread/src/jobpool.c: a pool of a fixed number of worker threads over one message queue of jobs.
--
-- A routine and its argument are of types `R` and `A`. How a `job_t` lies in memory is a parameter.
pub mod Order
use coter.Base.{
  ℕ, zero, suc, ◌<◌, ◌*◌, ◌≡◌, ◌==◌, Bool, true, false, ◌&&◌, ◌||◌, Option, none, some, List, [],
  ◌∷◌, ℤ, pos, minus_one, Bytes, length, replicate, if◌then◌else◌,
}
use coter.Sync.MsgQueue
use coter.Sync.MsgQueue.{MsgQueue, Code, is_ok, Wake, Pushed, Popped}

-- `job_t`, whose routine is `none` if it is null
pub record Job (R A : Type 0) : Type 0 where
  pub routine : Option R
  pub arg : A

-- the bytes of a `job_t`: as many as `sizeof` says, from which it can be read again
pub record Image (R A : Type 0) : Type 0 where
  pub byte : ℕ
  pub positive : 0 < byte
  pub to_bytes : Job R A → Bytes
  pub of_bytes : Bytes → Job R A
  pub length-to_bytes : (j : Job R A) → length (to_bytes j) ≡ byte
  pub of_bytes-to_bytes : (j : Job R A) → of_bytes (to_bytes j) ≡ j

-- `struct ct_jobpool`, with the number of workers in its list.
pub record JobPool : Type 0 where
  pub job_queue : MsgQueue
  pub units : ℕ
  pub thread_max : ℕ
  pub job_max : ℕ

-- what a caller has of the system: memory, the locks' codes, and the i-th worker with its thread
pub record Resources : Type 0 where
  pub pool_memory : Bool
  pub buffer_memory : Bool
  pub mutex : Code
  pub not_empty : Code
  pub not_full : Code
  pub worker : ℕ → Bool
  pub garbage : MsgQueue

-- the loop of ct_jobpool_create: whether all of the first `n` workers were had
unfoldable pub all_workers : (ℕ → Bool) → ℕ → Bool
all_workers worker zero = true
all_workers worker (suc n) = all_workers worker n && worker n

-- The calls of ct_msgqueue answer 0 or an errno code.
abbrev pub code_of : Code → ℤ
code_of code = if is_ok code then pos 0 else minus_one

-- How a call that may wait ends.
pub data Submitted : Type 0 where
  returned : ℤ → Option JobPool → Submitted
  blocked : Submitted

abbrev pub submitted : JobPool → Pushed → Submitted
submitted self (Pushed.done code signals m) =
    returned (code_of code) (some (record self { job_queue = m }))
submitted self Pushed.blocked = blocked

-- `ct_jobpool_pending`
abbrev pub pending : Option JobPool → ℕ
pending none = 0
pending (some self) = MsgQueue.count self.job_queue

-- ct_jobpool_destroy up to the joins: the queue is shut, and every worker is waited for.
unfoldable pub destroy : JobPool → JobPool
destroy self =
    let (_, m) = MsgQueue.destroy self.job_queue in record self { job_queue = m; units = 0 }

-- How a round of a worker ends: it has a job, leaves its loop, or waits.
pub data Turn (R A : Type 0) : Type 0 where
  takes : Job R A → MsgQueue → Turn R A
  stops : MsgQueue → Turn R A
  waits : Turn R A

-- a call that a worker makes
abbrev pub executes : {R A : Type 0} → Job R A → List (R × A)
executes j = elim j.routine [ none ↦ [] | some r ↦ (r, j.arg) ∷ [] ]

module _ {R A : Type 0} (image : Image R A) where
  -- `ct_jobpool_create`, with the initialised queue
  unfoldable pub create : Resources → ℕ → ℕ → Option JobPool
  unfolding all_workers MsgQueue.init
  create had thread_max job_max =
      let buffer = replicate (job_max * image.byte) 0 in
      let (code, queue) =
        MsgQueue.init had.garbage (some buffer) image.byte job_max had.mutex had.not_empty
          had.not_full in
      if thread_max == 0 || job_max == 0
      then none
      else if had.pool_memory
          && (had.buffer_memory && (is_ok code && all_workers had.worker thread_max))
      then some (record {
        job_queue = queue;
        units = thread_max;
        thread_max = thread_max;
        job_max = job_max;
      })
      else none

  abbrev pub job_bytes : R → A → Bytes
  job_bytes routine arg =
      let job : Job R A = record { routine = some routine; arg = arg } in image.to_bytes job

  unfoldable pub try_submit : Option JobPool → Option R → A → ℤ × Option JobPool
  try_submit none routine arg = (minus_one, none)
  try_submit (some self) none arg = (minus_one, some self)
  try_submit (some self) (some routine) arg =
      let (code, _, m) = MsgQueue.try_push self.job_queue (some (job_bytes routine arg)) in
      (code_of code, some (record self { job_queue = m }))

  unfoldable pub submit : Option JobPool → Option R → A → List Wake → Submitted
  submit none routine arg ws = returned minus_one none
  submit (some self) none arg ws = returned minus_one (some self)
  submit (some self) (some routine) arg ws =
      submitted self (MsgQueue.push self.job_queue (some (job_bytes routine arg)) ws)

  unfoldable pub submit_for : Option JobPool → Option R → A → ℕ → ℤ → List Wake → Submitted
  submit_for none routine arg start timeout_ms ws = returned minus_one none
  submit_for (some self) none arg start timeout_ms ws = returned minus_one (some self)
  submit_for (some self) (some routine) arg start timeout_ms ws =
      submitted self
        (MsgQueue.push_for self.job_queue (some (job_bytes routine arg)) start timeout_ms ws)

  abbrev pub taken : Code → Option Bytes → MsgQueue → Turn R A
  taken code none m = stops m
  taken code (some job) m = if is_ok code then takes (image.of_bytes job) m else stops m

  abbrev pub popped : Popped → Turn R A
  popped (Popped.done code job signals m) = taken code job m
  popped Popped.blocked = waits

  -- One round of m_worker_thread up to the call of the routine. Between the two calls on the queue, the
  -- other threads may have left it as `between`.
  unfoldable pub worker_round : MsgQueue → MsgQueue → List Wake → Turn R A
  worker_round m between ws =
      let (code, job, _, m') = MsgQueue.try_pop m true in
      if is_ok code then taken code job m' else popped (MsgQueue.pop between true ws)
