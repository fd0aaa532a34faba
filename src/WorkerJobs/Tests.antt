-- ===== src/WorkerJobs/Tests.antt =====
-- Three jobs of a worker.
use native.Mathlib.Omega.{arith}
use eset_store.Base.{◌≡◌, refl, none, some, [], ◌∷◌}
use eset_store.WorkerJobs.Queue.{
  put_job, get_key_value_job, Store, KeyValueJobQueue, job_open, take_over,
  remove_the_job_from_queue,
}
use eset_store.WorkerJobs.Held.{Holds}
use eset_store.WorkerJobs.Order.{put_all, get_all, jobs_in_order}

-- Every job still points to job 9 of a queue that it was in before.
abbrev jobs : Store
jobs p = record {
  key = p ∷ [];
  client_thread_idx = 0;
  client_conn_idx = 0;
  hash_value = 0;
  job_type = job_open;
  next = some 9;
  write_size = 0;
}

abbrev empty : KeyValueJobQueue
empty = record { job_ptr = none; job_size = 0 }

empty-Holds : Holds jobs empty []
empty-Holds = record { number = refl; starts = refl; different = tt }

-- the last one comes first
put_all_run :
    get_all 3 (put_all jobs empty (1 ∷ 2 ∷ 3 ∷ [])).0 (put_all jobs empty (1 ∷ 2 ∷ 3 ∷ [])).1
    ≡ some 3 ∷ some 2 ∷ some 1 ∷ []
unfolding put_all get_all put_job get_key_value_job
put_all_run = refl

-- the only job goes, and the queue of no jobs points to what it pointed to
remove_the_job_from_queue_run :
    remove_the_job_from_queue jobs (record { job_ptr = some 4; job_size = 1 }) 4
    ≡ some (jobs, record { job_ptr = some 9; job_size = 0 })
unfolding remove_the_job_from_queue
remove_the_job_from_queue_run = refl

jobs_in_order_example :
    (store' : Store) × (pending' : KeyValueJobQueue) × (handling' : KeyValueJobQueue) × (take_over 4
        (put_all jobs empty (1 ∷ 2 ∷ 3 ∷ [])).0
        (put_all jobs empty (1 ∷ 2 ∷ 3 ∷ [])).1
        empty
      ≡ some (store', pending', handling'))
    × Holds store' pending' []
    × (get_all 3 store' handling' ≡ some 1 ∷ some 2 ∷ some 3 ∷ [])
jobs_in_order_example = jobs_in_order jobs empty empty (1 ∷ 2 ∷ 3 ∷ []) empty-Holds empty-Holds (
  ((λ e. omega (arith, e)), ((λ e. omega (arith, e)), tt)),
  (((λ e. omega (arith, e)), tt), (tt, tt)),
)
