-- ===== src/Jobs/Queue.antt =====
-- The functions of ECServer/DiskJobQueue.c. The jobs are a store by address; `none` is NULL as a
-- pointer, and an access through NULL as a result.
use eset_store.Base.{ℕ, zero, suc, ◌+◌, ◌-◌, ◌*◌, Option, none, some, ◌==◌, if◌then◌else◌, ◌>>=◌}

pub data DiskIoJob : Type 0 where
  job_none job_read job_write job_readdone job_writedone : DiskIoJob

pub record DiskJob : Type 0 where
  pub source_ptr : Option ℕ
  pub job_type : DiskIoJob
  pub buf : ℕ
  pub buf_size : ℕ
  pub buf_req_size : ℕ
  pub buf_handled_size : ℕ
  pub next : Option ℕ
  pub pre : Option ℕ

pub record DiskJobQueue : Type 0 where
  pub job_num : ℕ
  pub disk_job_header : Option ℕ
  pub disk_job_tail : Option ℕ

abbrev pub Store : Type 0
Store = ℕ → DiskJob

abbrev pub set_job : Store → ℕ → DiskJob → Store
set_job store p job q = if q == p then job else store q

unfoldable pub init_disk_io_job : DiskJob → DiskJob
init_disk_io_job job = record job {
  buf_req_size = 0;
  buf_handled_size = 0;
  source_ptr = none;
  next = none;
  pre = none;
  job_type = job_none;
}

abbrev pub create_disk_job_queue : DiskJobQueue
create_disk_job_queue = record { job_num = 0; disk_job_header = none; disk_job_tail = none }

unfoldable pub link_behind : Store → ℕ → ℕ → Store
link_behind store tail p =
    let store' = set_job store tail (record (store tail) { next = some p }) in
    set_job store' p (record (store' p) { pre = some tail })

unfoldable pub enqueue_disk_job : Store → DiskJobQueue → ℕ → Option (Store × DiskJobQueue)
unfolding link_behind
enqueue_disk_job store q p =
    if q.job_num == 0
    then some (
      set_job store p (record (store p) { pre = none; next = none }),
      record { job_num = 1; disk_job_header = some p; disk_job_tail = some p },
    )
    else (q.disk_job_tail >>= λ tail.
        some
          (link_behind store tail p, record q { disk_job_tail = some p; job_num = q.job_num + 1 }))

unfoldable pub dequeue_disk_job : Store → DiskJobQueue → Option (Option ℕ × DiskJobQueue)
dequeue_disk_job store q =
    if q.job_num == 0
    then some (none, q)
    else if q.job_num == 1
    then some
        (q.disk_job_header, record { job_num = 0; disk_job_header = none; disk_job_tail = none })
    else (q.disk_job_header >>= λ header.
        some (
          some header,
          record q { disk_job_header = (store header).next; job_num = q.job_num - 1 },
        ))

pub record DiskJobManager : Type 0 where
  pub base_mem : ℕ
  pub cur_mem_ptr : ℕ
  pub mem_size : ℕ
  pub disk_job_alloc_num : ℕ
  pub disk_job_alloc_step : ℕ
  pub disk_job_mem_size : ℕ
  pub buf_size : ℕ
  pub idle_disk_job_queue : DiskJobQueue

-- `header` is the size of a job without its buffer.
unfoldable pub alloc_disk_io_job : ℕ → Store → DiskJobManager → ℕ → Option (Store × DiskJobManager)
unfolding init_disk_io_job enqueue_disk_job
alloc_disk_io_job header store mgr zero = some (store, mgr)
alloc_disk_io_job header store mgr (suc left) =
    let p = mgr.cur_mem_ptr in
    let job = init_disk_io_job (record (store p) { buf = p + header; buf_size = mgr.buf_size }) in
    enqueue_disk_job (set_job store p job) mgr.idle_disk_job_queue p >>= λ (store', queue).
    alloc_disk_io_job header store'
      (record mgr {
        cur_mem_ptr = p + mgr.disk_job_mem_size;
        disk_job_alloc_num = mgr.disk_job_alloc_num + 1;
        idle_disk_job_queue = queue;
      })
      left

-- `memory` is the address of the new memory.
unfoldable pub create_disk_job_mgr : ℕ → Store → ℕ → ℕ → ℕ → Option (Store × DiskJobManager)
unfolding alloc_disk_io_job
create_disk_job_mgr header store memory step size =
    alloc_disk_io_job header store
      (record {
        base_mem = memory;
        cur_mem_ptr = memory;
        mem_size = (header + size) * step;
        disk_job_alloc_num = 0;
        disk_job_alloc_step = step;
        disk_job_mem_size = header + size;
        buf_size = size;
        idle_disk_job_queue = create_disk_job_queue;
      })
      step

-- What getIdleDiskJob does when no job is idle; `realloc` returns the memory's new address.
unfoldable pub more_idle_jobs :
    ℕ → (ℕ → ℕ → ℕ) → Store → DiskJobManager → Option (Option ℕ × Store × DiskJobManager)
unfolding alloc_disk_io_job dequeue_disk_job
more_idle_jobs header realloc store mgr =
    let size = mgr.mem_size + mgr.disk_job_mem_size * mgr.disk_job_alloc_step in
    let base = realloc mgr.base_mem size in
    alloc_disk_io_job header store
      (record mgr {
        mem_size = size;
        base_mem = base;
        cur_mem_ptr = base + mgr.disk_job_alloc_num * mgr.disk_job_mem_size;
      })
      mgr.disk_job_alloc_step
    >>= λ (store', mgr'). dequeue_disk_job store' mgr'.idle_disk_job_queue >>= λ (job, queue).
        some (job, store', record mgr' { idle_disk_job_queue = queue })

unfoldable pub get_idle_disk_job :
    ℕ → (ℕ → ℕ → ℕ) → Store → DiskJobManager → Option (Option ℕ × Store × DiskJobManager)
unfolding more_idle_jobs
get_idle_disk_job header realloc store mgr =
    dequeue_disk_job store mgr.idle_disk_job_queue >>= λ (job, queue). elim job [
      | some p ↦ some (some p, store, record mgr { idle_disk_job_queue = queue })
      | none ↦ more_idle_jobs header realloc store (record mgr { idle_disk_job_queue = queue })
    ]

unfoldable pub put_idle_job : Store → DiskJobManager → ℕ → Option (Store × DiskJobManager)
unfolding init_disk_io_job enqueue_disk_job
put_idle_job store mgr p =
    enqueue_disk_job (set_job store p (init_disk_io_job (store p))) mgr.idle_disk_job_queue p
    >>= λ (store', queue). some (store', record mgr { idle_disk_job_queue = queue })
