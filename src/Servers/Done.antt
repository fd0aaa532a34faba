-- ===== src/Servers/Done.antt =====
-- The reports of a deletion job's blocks, until the job is done: Servers/Deletes.antt.
use eset_store.Base.{
  NotIn, ℕ, zero, suc, ◌+◌, ◌-◌, ◌%◌, ◌<◌, ◌≡◌, refl, ap, ◌∙◌, arith, true, Option, none, some,
  List, [], ◌∷◌, ◌++◌, length, eq→==, ne→not_eq, ◌==◌, if◌then◌else◌,
}
use eset_store.Text.Number.{u32_mod}
use eset_store.Blocks.Groups.{get_block_group_id}
use eset_store.WorkerJobs.Queue.{
  Store, KeyValueJobQueue, put_job, link_in_front, set_next, job_delete_done,
}
use eset_store.Placement.Manager.{EcBlockGroup}
use eset_store.WorkerJobs.Held.{SameBut, link_in_front-SameBut}
use eset_store.Servers.Deletes.{
  BlockServerManager, job_has_the_block, find_job, set_num, finish_job, report_block_deletion,
  report_all, report_servers_delete_job_done,
}
use eset_store.Servers.Queue.{
  InProcess, Chain-elsewhere, Lack, find_job-first, OtherKeys, AllDifferent-drop,
  remove_the_job-InProcess,
}

-- Each of the blocks is of the job `p`, and of no job of the list.
abbrev pub AllOf : (ℕ → List EcBlockGroup) → ℕ → List ℕ → List ℕ → Type 0
AllOf groups p pre [] = Unit {0}
AllOf groups p pre (id ∷ ids) =
    ((job_has_the_block (groups p) (get_block_group_id id) ≡ some true)
      × Lack groups (get_block_group_id id) pre)
    × AllOf groups p pre ids

abbrev pub queue_of : BlockServerManager → ℕ → KeyValueJobQueue
queue_of m p = m.worker_queues (m.worker_idx p)

-- The job is with its worker as one whose deletion is done, and the other jobs are still in process.
pub record Done (before m : BlockServerManager) (p : ℕ) (others : List ℕ) : Type 0 where
  pub in_process : InProcess m.store m.in_processing_job_queue others
  pub in_front : (queue_of m p).job_ptr ≡ some p
  pub one_more : (queue_of m p).job_size ≡ (queue_of before p).job_size + 1
  pub done : (m.store p).job_type ≡ job_delete_done

module _ (m : BlockServerManager) (p id : ℕ) (pre post : List ℕ)
    (v : InProcess m.store m.in_processing_job_queue (pre ++ p ∷ post))
    (has : job_has_the_block (m.groups p) (get_block_group_id id) ≡ some true)
    (lack : Lack m.groups (get_block_group_id id) pre) where
  -- A report counts down the job that has the block.
  report-counts :
      report_block_deletion m id
      ≡ finish_job (set_num m p ((m.in_processing_num p + u32_mod - 1) % u32_mod)) p
  unfolding report_block_deletion
  report-counts = rw (found, report_block_deletion) refl
    where
      found :
          find_job m.in_processing_job_queue.job_size m m.in_processing_job_queue.job_ptr
            (get_block_group_id id)
          ≡ some (some p, true)
      found =
          ap (λ n. find_job n m m.in_processing_job_queue.job_ptr (get_block_group_id id)) v.number
          ∙ find_job-first m (get_block_group_id id) p pre post m.in_processing_job_queue.job_ptr
              v.linked lack has

pub num_set : (m : BlockServerManager) (p num : ℕ) → (set_num m p num).in_processing_num p ≡ num
unfolding set_num
num_set m p num = rw (eq→== p p refl) refl

type_linked :
    (store : Store) (p : ℕ) (head : Option ℕ)
    → (link_in_front store p head p).job_type ≡ (store p).job_type
unfolding link_in_front set_next
type_linked store p none = refl
type_linked store p (some head) = rw (eq→== p p refl) refl

pub report_servers-Done :
    (before m : BlockServerManager) (p : ℕ) (others : List ℕ)
    → InProcess m.store m.in_processing_job_queue others
    → NotIn p others
    → (queue_of m p).job_size ≡ (queue_of before p).job_size
    → Done before (report_servers_delete_job_done m p) p others
unfolding report_servers_delete_job_done put_job
report_servers-Done before m p others v n same = record {
  in_process = record {
    number = v.number;
    linked =
        Chain-elsewhere m.store (report_servers_delete_job_done m p).store p
          m.in_processing_job_queue.job_ptr others elsewhere n v.linked;
    different = v.different;
  };
  in_front = rw (eq→== (m.worker_idx p) (m.worker_idx p) refl) refl;
  one_more = rw (eq→== (m.worker_idx p) (m.worker_idx p) refl) (ap (λ k. k + 1) same);
  done = type_linked typed p (queue_of m p).job_ptr ∙ rw (eq→== p p refl) refl;
}
  where
    typed : Store
    typed r = if r == p then record (m.store p) { job_type = job_delete_done } else m.store r

    elsewhere : SameBut p m.store (report_servers_delete_job_done m p).store
    elsewhere r ne =
        link_in_front-SameBut typed p (queue_of m p).job_ptr r ne ∙ rw (ne→not_eq r p ne) refl

-- A job without open blocks is done.
finish_job-Done :
    (before m : BlockServerManager) (p : ℕ) (pre post : List ℕ)
    → InProcess m.store m.in_processing_job_queue (pre ++ p ∷ post)
    → OtherKeys m.store p pre
    → (queue_of m p).job_size ≡ (queue_of before p).job_size
    → m.in_processing_num p ≡ 0
    → (m' : BlockServerManager) × (finish_job m p ≡ some m') × Done before m' p (pre ++ post)
unfolding finish_job
finish_job-Done before m p pre post v keys same zero_left =
    let (store, queue, removed, v') =
      remove_the_job-InProcess m.store m.in_processing_job_queue p pre post v keys in
    let after : BlockServerManager = record m { store = store; in_processing_job_queue = queue } in
    (
      report_servers_delete_job_done after p,
      rw (eq→== (m.in_processing_num p) 0 zero_left) (rw removed refl),
      report_servers-Done before after p (pre ++ post) v'
          (AllDifferent-drop p pre post v.different).1 same,
    )

finish_job-open :
    (m : BlockServerManager) (p k : ℕ) → m.in_processing_num p ≡ suc k → finish_job m p ≡ some m
unfolding finish_job
finish_job-open m p k e = rw (ne→not_eq (m.in_processing_num p) 0 (omega (arith, e))) refl

-- After as many reports for blocks of a job in process as its number says, where no job before it in the
-- queue has a block of their groups or its key, the job is done; the others stay in process, in order.
pub counting_down :
    (before : BlockServerManager) (p : ℕ) (pre post : List ℕ) (m : BlockServerManager)
    (ids : List ℕ) (k : ℕ)
    → InProcess m.store m.in_processing_job_queue (pre ++ p ∷ post)
    → OtherKeys m.store p pre
    → AllOf m.groups p pre ids
    → (queue_of m p).job_size ≡ (queue_of before p).job_size
    → m.in_processing_num p ≡ suc k
    → length ids ≡ suc k
    → suc k < u32_mod
    → (m' : BlockServerManager) × (report_all m ids ≡ some m') × Done before m' p (pre ++ post)
unfolding report_all set_num
counting_down before p pre post m [] k v keys all same num l small = absurd (omega arith)
counting_down before p pre post m (id ∷ []) zero v keys ((has, lack), all) same num l small =
    let next : BlockServerManager = set_num m p ((m.in_processing_num p + u32_mod - 1) % u32_mod) in
    let (m', finished, done) =
      finish_job-Done before next p pre post v keys same (num_set m p _ ∙ omega (arith, num)) in
    (m', rw (report-counts m p id pre post v has lack ∙ finished) refl, done)
counting_down before p pre post m (id ∷ []) (suc k) v keys all same num l small =
    absurd (omega arith)
counting_down before p pre post m (id ∷ id' ∷ ids) zero v keys all same num l small =
    absurd (omega arith)
counting_down before p pre post m (id ∷ id' ∷ ids) (suc k) v keys ((has, lack), all) same num l
      small =
    let next : BlockServerManager = set_num m p ((m.in_processing_num p + u32_mod - 1) % u32_mod) in
    let left : next.in_processing_num p ≡ suc k = num_set m p _ ∙ omega (arith, num) in
    let (m', run, done) =
      counting_down before p pre post next (id' ∷ ids) k v keys all same left (omega arith)
        (omega arith) in
    (m', rw (report-counts m p id pre post v has lack ∙ finish_job-open next p k left) run, done)
