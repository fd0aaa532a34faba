-- ===== src/WorkerJobs/Queue.antt =====
-- The functions of ECMeta/ECJob.c. The jobs are a store by address, with NULL as `none`; a key with
-- its size is the list of its characters.
use eset_store.Base.{
  strncmp_zero, ℕ, zero, suc, ◌+◌, ◌-◌, ◌^◌, Bool, true, false, ◌&&◌, Option, none, some, List, [],
  ◌∷◌, ◌==◌, if◌then◌else◌, ◌>>=◌, length,
}
use eset_store.Text.Number.{minus_one}

pub data KeyValueJobType : Type 0 where
  job_create : KeyValueJobType
  job_open : KeyValueJobType
  job_read : KeyValueJobType
  job_append : KeyValueJobType
  job_write : KeyValueJobType
  job_write_size : KeyValueJobType
  job_delete : KeyValueJobType
  job_delete_done : KeyValueJobType

-- The fields that ECJob.c reads or writes, but those of the reply.
pub record KeyValueJob : Type 0 where
  pub key : List ℕ
  pub client_thread_idx : ℕ
  pub client_conn_idx : ℕ
  pub hash_value : ℕ
  pub job_type : KeyValueJobType
  pub next : Option ℕ
  pub write_size : ℕ

abbrev pub Store : Type 0
Store = ℕ → KeyValueJob

pub record KeyValueJobQueue : Type 0 where
  pub job_ptr : Option ℕ
  pub job_size : ℕ

unfoldable pub create_key_value_job_queue : KeyValueJobQueue
create_key_value_job_queue = record { job_ptr = none; job_size = 0 }

unfoldable pub set_next : Store → ℕ → Option ℕ → Store
set_next store p after = λ r. if r == p then record (store p) { next = after } else store r

-- The first `if` on the queue: where it is empty, `next` stays what it was.
unfoldable pub link_in_front : Store → ℕ → Option ℕ → Store
unfolding set_next
link_in_front store p none = store
link_in_front store p (some head) = set_next store p (some head)

-- The result, the jobs and the queue after the call.
unfoldable pub put_job : Store → KeyValueJobQueue → Option ℕ → ℕ × Store × KeyValueJobQueue
unfolding link_in_front
put_job store q none = (minus_one, store, q)
put_job store q (some p) =
    (0, link_in_front store p q.job_ptr, record { job_ptr = some p; job_size = q.job_size + 1 })

-- `--jobSize`, a size_t.
abbrev pub less_one : ℕ → ℕ
less_one zero = 2 ^ 64 - 1
less_one (suc n) = n

unfoldable pub take_job : Store → ℕ → Option ℕ → Option ℕ × KeyValueJobQueue
take_job store size none = (none, record { job_ptr = none; job_size = size })
take_job store size (some p) = (
  some p,
  record {
    job_ptr = if less_one size == 0 then none else (store p).next;
    job_size = less_one size;
  },
)

unfoldable pub get_key_value_job : Store → KeyValueJobQueue → Option ℕ × KeyValueJobQueue
unfolding take_job
get_key_value_job store q = take_job store q.job_size q.job_ptr

-- The size of the key and `strncmp(...) == 0`.
unfoldable pub has_key : KeyValueJob → KeyValueJob → Bool
unfolding strncmp_zero
has_key job other = (length job.key == length other.key) && strncmp_zero job.key other.key

-- The loop, over the rounds that are left; `none`: it follows NULL. The flag is whether the job was
-- found.
unfoldable pub remove_behind : ℕ → Store → KeyValueJob → ℕ → Option (Bool × Store)
unfolding has_key set_next
remove_behind zero store job p = some (false, store)
remove_behind (suc left) store job p = (store p).next >>= λ q.
    let rest = remove_behind left store job q in
    if has_key job (store q) then some (true, set_next store p job.next) else rest

-- `p` is the job to remove.
unfoldable pub remove_the_job_from_queue :
    Store → KeyValueJobQueue → ℕ → Option (Store × KeyValueJobQueue)
unfolding remove_behind
remove_the_job_from_queue store q p = q.job_ptr >>= λ head.
    let behind = remove_behind (q.job_size - 1) store (store p) head in
    if has_key (store p) (store head)
    then some (store, record { job_ptr = (store head).next; job_size = less_one q.job_size })
    else behind >>= λ (found, store').
        some (store', record q { job_size = if found then less_one q.job_size else q.job_size })

-- `none`: there is no key.
unfoldable pub create_ec_job :
    Option (List ℕ) → ℕ → ℕ → ℕ → KeyValueJobType → ℕ → Option KeyValueJob
create_ec_job none hash_value thread_idx conn_idx job_type write_size = none
create_ec_job (some []) hash_value thread_idx conn_idx job_type write_size = none
create_ec_job (some (c ∷ cs)) hash_value thread_idx conn_idx job_type write_size = some (record {
  key = c ∷ cs;
  client_thread_idx = thread_idx;
  client_conn_idx = conn_idx;
  hash_value = hash_value;
  job_type = job_type;
  next = none;
  write_size = write_size;
})

-- The loop of startWorker that moves the pending jobs to the queue in hand, on fuel; `none`: the
-- fuel is out.
unfoldable pub take_over :
    ℕ
    → Store
    → KeyValueJobQueue
    → KeyValueJobQueue
    → Option (Store × KeyValueJobQueue × KeyValueJobQueue)
unfolding get_key_value_job put_job
take_over zero store pending handling = none
take_over (suc fuel) store pending handling =
    let (job, pending') = get_key_value_job store pending in
    let (code, store', handling') = put_job store handling job in
    let rest = take_over fuel store' pending' handling' in
    if pending.job_size == 0 then some (store, pending, handling) else rest
