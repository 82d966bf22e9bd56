-- ===== src/Thread/JobPool/Order.antt =====
-- The order in which jobs run.
use coter.Base.{
  ◌⊎◌, ℕ, zero, ◌*◌, ◌<◌, ◌≡◌, ◌==◌, refl, sym, ap, subst, ◌∙◌, arith, true, ◌&&◌, ◌||◌, Option,
  none, some, List, [], ◌∷◌, ◌++◌, append-nil, append_assoc, ℤ, pos, Bytes, length,
  length-replicate, take, take-length, replicate, size_mod, Bool-cases, inl, inr,
}
use coter.Container.Queue.Inv.{IsValid}
use coter.Container.Queue
use coter.Container.Queue.{Queue}
use coter.Container.Queue.Refine.{contents, length-contents}
use coter.Sync.MsgQueue
use coter.Sync.MsgQueue.{MsgQueue, Code, ok, einval, epipe, eagain, is_ok}
use coter.Sync.MsgQueue.Start.{init-outcome}
use coter.Sync.MsgQueue.Trace.{entry, exit, push_step, pop_step, close-queue}
use coter.Thread.JobPool.{
  Job, Image, JobPool, Resources, executes, create, destroy, try_submit, all_workers, job_bytes,
  taken, Turn, takes, code_of,
}

-- What threads do with a pool: submit a job, take one, or begin to destroy the pool.
pub data Step (R A : Type 0) : Type 0 where
  submit : R → A → Step R A
  take_job shut : Step R A

-- The jobs accepted and those executed, both in order, and the queue afterwards.
pub record History (R A : Type 0) : Type 0 where
  pub accepted : List (R × A)
  pub executed : List (R × A)
  pub final : JobPool

abbrev pub if_accepted : {R A : Type 0} → ℤ → R → A → List (R × A)
if_accepted (pos zero) routine arg = (routine, arg) ∷ []
if_accepted _ routine arg = []

-- the pool after a call
abbrev pub left_by : Option JobPool → JobPool → JobPool
left_by none self = self
left_by (some after) self = after

-- what a worker executes in a round
abbrev pub executed_in : {R A : Type 0} → Turn R A → List (R × A)
executed_in (takes job m) = executes job
executed_in _ = []

module _ {R A : Type 0} (image : Image R A) where
  -- the jobs in bytes taken from the queue
  abbrev pub jobs : List Bytes → List (R × A)
  jobs [] = []
  jobs (x ∷ xs) = executes (image.of_bytes x) ++ jobs xs

  -- A worker takes a job with ct_msgqueue_try_pop, or in the last stretch of ct_msgqueue_pop.
  unfoldable pub run : JobPool → List (Step R A) → History R A
  run self [] = record { accepted = []; executed = []; final = self }
  run self (submit routine arg ∷ steps) =
      let (code, after) = try_submit image (some self) (some routine) arg in
      let h = run (left_by after self) steps in
      record h { accepted = if_accepted code routine arg ++ h.accepted }
  run self (take_job ∷ steps) =
      let (code, job, _, m) = MsgQueue.try_pop self.job_queue true in
      let h = run (record self { job_queue = m }) steps in
      record h { executed = executed_in (taken image code job m) ++ h.executed }
  run self (shut ∷ steps) = run (destroy self) steps

  length-zero : {B : Type 0} → (xs : List B) → length xs ≡ 0 → xs ≡ []
  length-zero [] e = refl
  length-zero (x ∷ xs) e = absurd (omega arith)

  jobs-append : (xs ys : List Bytes) → jobs (xs ++ ys) ≡ jobs xs ++ jobs ys
  jobs-append [] ys = refl
  jobs-append (x ∷ xs) ys =
      ap (λ l. executes (image.of_bytes x) ++ l) (jobs-append xs ys)
      ∙ sym (append_assoc (executes (image.of_bytes x)) (jobs xs) (jobs ys))

  jobs-entry :
      (code : Code) (byte : ℕ) (routine : R) (arg : A)
      → byte ≡ image.byte
      → jobs (entry code byte (job_bytes image routine arg))
        ≡ if_accepted (code_of code) routine arg
  jobs-entry ok byte routine arg e =
      let job : Job R A = record { routine = some routine; arg = arg } in
      let same : take byte (image.to_bytes job) ≡ image.to_bytes job =
        take-length byte (image.to_bytes job) (omega (arith, e, image.length-to_bytes job)) in
      rw (same, image.of_bytes-to_bytes job) refl
  jobs-entry einval byte routine arg e = refl
  jobs-entry epipe byte routine arg e = refl
  jobs-entry _ byte routine arg e = refl

  try_pop_code :
      (m : MsgQueue) → let (code, job, _, _) = MsgQueue.try_pop m true in (job ≡ none) ⊎ (code ≡ ok)
  unfolding MsgQueue.try_pop
  try_pop_code m = ground arith

  -- what comes out of the queue is executed
  jobs-exit :
      (code : Code) (job : Option Bytes) (m : MsgQueue)
      → (job ≡ none) ⊎ (code ≡ ok)
      → executed_in (taken image code job m) ≡ jobs (exit job)
  jobs-exit code none m h = refl
  jobs-exit code (some x) m (inl h) = cc
  jobs-exit code (some x) m (inr h) = rw h (sym (append-nil (executes (image.of_bytes x))))

  run_in_order :
      (self : JobPool) (steps : List (Step R A))
      → IsValid self.job_queue.queue
      → self.job_queue.queue.byte ≡ image.byte
      → let h = run self steps in
        jobs (contents self.job_queue.queue) ++ h.accepted
        ≡ h.executed ++ jobs (contents h.final.job_queue.queue)
  unfolding run try_submit destroy
  run_in_order self [] v e = append-nil (jobs (contents self.job_queue.queue))
  run_in_order self (submit routine arg ∷ steps) v e =
      let m = self.job_queue in
      let item = job_bytes image routine arg in
      let (code, _, m') = MsgQueue.try_push m (some item) in
      let (k, moved) =
        push_step m v item (
          omega (arith, e, image.length-to_bytes (record { routine = some routine; arg = arg }))) in
      let rest = run_in_order (record self { job_queue = m' }) steps k.valid (k.byte_same ∙ e) in
      let there = jobs (contents m.queue) in
      let entered = entry code m.queue.byte item in
      let h = run (record self { job_queue = m' }) steps in
      sym (append_assoc there (if_accepted (code_of code) routine arg) h.accepted)
      ∙ ap (λ l. (there ++ l) ++ h.accepted) (sym (jobs-entry code m.queue.byte routine arg e))
      ∙ ap (λ l. l ++ h.accepted) (sym (jobs-append (contents m.queue) entered) ∙ ap jobs moved)
      ∙ rest
  run_in_order self (take_job ∷ steps) v e =
      let m = self.job_queue in
      let (k, moved) = pop_step m v in
      let (code, job, _, m') = MsgQueue.try_pop m true in
      let rest = run_in_order (record self { job_queue = m' }) steps k.valid (k.byte_same ∙ e) in
      let h = run (record self { job_queue = m' }) steps in
      ap (λ l. l ++ h.accepted) (ap jobs moved ∙ jobs-append (exit job) (contents m'.queue))
      ∙ append_assoc (jobs (exit job)) (jobs (contents m'.queue)) h.accepted
      ∙ ap (◌++◌ (jobs (exit job))) rest
      ∙ sym (append_assoc (jobs (exit job)) h.executed (jobs (contents h.final.job_queue.queue)))
      ∙ ap (λ l. (l ++ h.executed) ++ jobs (contents h.final.job_queue.queue))
          (sym (jobs-exit code job m' (try_pop_code m)))
  run_in_order self (shut ∷ steps) v e =
      let same : (MsgQueue.close self.job_queue).1.queue ≡ self.job_queue.queue =
        close-queue self.job_queue in
      let rest = run_in_order (destroy self) steps (rw same v) (rw same e) in
      subst
        (λ q.
          jobs (contents q) ++ (run (destroy self) steps).accepted
          ≡ (run (destroy self) steps).executed
            ++ jobs (contents (run (destroy self) steps).final.job_queue.queue))
        same rest

  init-byte :
      (m : MsgQueue) (buffer : Bytes) (byte max : ℕ) (mutex not_empty not_full : Code)
      → 0 < byte
      → 0 < max
      → (MsgQueue.init m (some buffer) byte max mutex not_empty not_full).1.queue.byte ≡ byte
  unfolding MsgQueue.init Queue.init
  init-byte m buffer byte max mutex not_empty not_full p q = ground arith

  empty_contents : (q : Queue) → q.size ≡ 0 → contents q ≡ []
  empty_contents q e = length-zero (contents q) (length-contents q ∙ e)

  create-IsValid :
      (had : Resources) (thread_max job_max : ℕ) (self : JobPool)
      → job_max < size_mod
      → create image had thread_max job_max ≡ some self
      → IsValid self.job_queue.queue
        × (self.job_queue.queue.byte ≡ image.byte)
        × (contents self.job_queue.queue ≡ [])
  unfolding create
  create-IsValid had thread_max job_max self h e =
      let buffer : Bytes = replicate (job_max * image.byte) 0 in
      let started =
        MsgQueue.init had.garbage (some buffer) image.byte job_max had.mutex had.not_empty
          had.not_full in
      elim (Bool-cases (thread_max == 0 || job_max == 0)) [
        | inl z ↦ absurd (ground (arith, z, rw z at e))
        | inr z ↦
            elim (Bool-cases (
              had.pool_memory
              && (had.buffer_memory && (is_ok started.0 && all_workers had.worker thread_max)))) [
                | inr f ↦ absurd (ground (arith, rw (z, f) at e))
                | inl f ↦
                    let some_jobs : 0 < job_max = ground arith in
                    let same : started.1 ≡ self.job_queue =
                      ap (λ o. (left_by o self).job_queue) (rw (z, f) at e) in
                    let (valid, _, _, none_yet, _, _) =
                      init-outcome had.garbage buffer image.byte job_max had.mutex had.not_empty
                        had.not_full image.positive some_jobs h
                        (omega (arith, length-replicate {A = ℕ} (job_max * image.byte) 0)) in
                    let byte =
                      init-byte had.garbage buffer image.byte job_max had.mutex had.not_empty
                        had.not_full image.positive some_jobs in
                    subst
                      (λ (m : MsgQueue).
                        IsValid m.queue × (m.queue.byte ≡ image.byte) × (contents m.queue ≡ []))
                      same (valid, byte, empty_contents started.1.queue none_yet)
              ]
      ]

-- The jobs of a pool made by ct_jobpool_create, for any sequence of submitted jobs, of jobs taken by
-- workers and of calls that begin to destroy the pool: the jobs executed, in order, are the first ones
-- of those accepted with the answer 0, in order, and the others are still in the queue, in order.
pub jobs_in_order :
    {R A : Type 0} (image : Image R A) (had : Resources) (thread_max job_max : ℕ) (self : JobPool)
    (steps : List (Step R A))
    → job_max < size_mod
    → create image had thread_max job_max ≡ some self
    → let h = run image self steps in
      h.accepted ≡ h.executed ++ jobs image (contents h.final.job_queue.queue)
jobs_in_order image had thread_max job_max self steps h e =
    let (v, byte, empty) = create-IsValid image had thread_max job_max self h e in
    let all = run_in_order image self steps v byte in rw empty at all
