-- ===== src/Thread/JobTests.antt =====
-- Tests of the job pool.
use coter.Base.{
  ℕ, zero, suc, ◌≡◌, ◌++◌, refl, arith, true, false, Option, none, some, List, [], ◌∷◌, Bytes,
  length, replicate,
}
use coter.Sync.MsgQueue
use coter.Sync.MsgQueue.{MsgQueue, ok}
use coter.Container.Queue
use coter.Container.Queue.Refine.{contents}
use coter.Thread.JobPool.{Job, Image, JobPool, Resources, create, all_workers}
use coter.Thread.JobPool.Order.{Step, submit, take_job, shut, run, jobs, jobs_in_order}

-- routines and arguments are numbers, which stand one after the other in memory
abbrev number_job : Bytes → Job ℕ ℕ
number_job (zero ∷ arg ∷ _) = record { routine = none; arg = arg }
number_job (suc r ∷ arg ∷ _) = record { routine = some r; arg = arg }
number_job _ = record { routine = none; arg = 0 }

abbrev job_numbers : Option ℕ → ℕ → Bytes
job_numbers none arg = 0 ∷ arg ∷ []
job_numbers (some r) arg = suc r ∷ arg ∷ []

length-job_numbers : (r : Option ℕ) (arg : ℕ) → length (job_numbers r arg) ≡ 2
length-job_numbers none arg = refl
length-job_numbers (some r) arg = refl

number_job-job_numbers :
    (r : Option ℕ) (arg : ℕ) → number_job (job_numbers r arg) ≡ record { routine = r; arg = arg }
number_job-job_numbers none arg = refl
number_job-job_numbers (some r) arg = refl

abbrev two_numbers : Image ℕ ℕ
two_numbers = record {
  byte = 2;
  positive = omega arith;
  to_bytes = λ j. job_numbers j.routine j.arg;
  of_bytes = number_job;
  length-to_bytes = λ j. length-job_numbers j.routine j.arg;
  of_bytes-to_bytes = λ j. number_job-job_numbers j.routine j.arg;
}

abbrev all_had : Resources
all_had = record {
  pool_memory = true;
  buffer_memory = true;
  mutex = ok;
  not_empty = ok;
  not_full = ok;
  worker = λ i. true;
  garbage = record {
    queue = record { all = []; byte = 0; max = 0; head = 0; tail = 0; size = 0 };
    is_shut = false;
  };
}

-- a pool of two workers and room for three jobs
abbrev small_pool : JobPool
small_pool = record {
  job_queue = record {
    queue = record { all = replicate 6 0; byte = 2; max = 3; head = 0; tail = 0; size = 0 };
    is_shut = false;
  };
  units = 2;
  thread_max = 2;
  job_max = 3;
}

small_pool_made : create two_numbers all_had 2 3 ≡ some small_pool
unfolding create MsgQueue.init Queue.init all_workers
small_pool_made = refl

abbrev some_steps : List (Step ℕ ℕ)
some_steps =
    submit 1 10
    ∷ submit 2 20
    ∷ take_job
    ∷ submit 3 30
    ∷ take_job
    ∷ shut
    ∷ submit 4 40
    ∷ take_job
    ∷ []

jobs_in_order_example :
    let h = run two_numbers small_pool some_steps in
    h.accepted ≡ h.executed ++ jobs two_numbers (contents h.final.job_queue.queue)
jobs_in_order_example =
    jobs_in_order two_numbers all_had 2 3 small_pool some_steps (omega arith) small_pool_made
