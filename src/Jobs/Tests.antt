-- ===== src/Jobs/Tests.antt =====
-- A queue of two jobs, at the addresses 5 and 7.
use native.Mathlib.Omega.{arith}
use eset_store.Base.{ℕ, ◌≡◌, refl, Option, none, some, [], ◌∷◌, ◌==◌, if◌then◌else◌}
use eset_store.Jobs.Queue.{
  DiskJob, DiskJobQueue, DiskJobManager, Store, enqueue_disk_job, dequeue_disk_job,
  create_disk_job_mgr,
}
use eset_store.Jobs.Queue.DiskIoJob.{job_none}
use eset_store.Jobs.Fifo.{Holds, enqueue_disk_job-Holds, dequeue_disk_job-Holds}

abbrev job : Option ℕ → Option ℕ → DiskJob
job next pre = record {
  source_ptr = none;
  job_type = job_none;
  buf = 0;
  buf_size = 4;
  buf_req_size = 0;
  buf_handled_size = 0;
  next = next;
  pre = pre;
}

abbrev two_jobs : Store
two_jobs p = if p == 5 then job (some 7) none else job (some 99) (some 5)

abbrev two : DiskJobQueue
two = record { job_num = 2; disk_job_header = some 5; disk_job_tail = some 7 }

two-Holds : Holds two_jobs two (5 ∷ 7 ∷ [])
two-Holds = record {
  number = refl;
  chain = (refl, (refl, tt));
  tail_last = (7, refl, refl);
  different = ((omega arith, tt), (tt, tt));
}

-- A manager with three jobs of 10 + 4 bytes gives out the first one.
get_idle_disk_job_run :
    (store : Store) × (o : DiskJobManager) × (create_disk_job_mgr 10 two_jobs 1000 3 4
      ≡ some (store, o))
    × (o.idle_disk_job_queue.disk_job_header ≡ some 1000)
    × (o.idle_disk_job_queue.disk_job_tail ≡ some 1028)
unfolding create_disk_job_mgr
get_idle_disk_job_run = (_, _, refl, refl, refl)

enqueue_disk_job-Holds_example :
    (store' : Store) × (q' : DiskJobQueue) × (enqueue_disk_job two_jobs two 9 ≡ some (store', q'))
    × Holds store' q' (5 ∷ 7 ∷ 9 ∷ [])
enqueue_disk_job-Holds_example =
    enqueue_disk_job-Holds two_jobs two 9 (5 ∷ 7 ∷ []) two-Holds (omega arith)

dequeue_disk_job-Holds_example :
    (q' : DiskJobQueue) × (dequeue_disk_job two_jobs two ≡ some (some 5, q'))
    × Holds two_jobs q' (7 ∷ [])
dequeue_disk_job-Holds_example = dequeue_disk_job-Holds two_jobs two 5 (7 ∷ []) two-Holds
