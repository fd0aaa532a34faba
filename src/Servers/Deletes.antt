-- ===== src/Servers/Deletes.antt =====
-- The deletion jobs of ECMeta/BlockServer.c: performDeleteBlocksJob, reportBlockDeletion and what they
-- call. A job is its address; the fields that ECMeta/ECJob.c does not use are functions of it. `none` is
-- an access through NULL.
use eset_store.Base.{
  ℕ, zero, suc, ◌+◌, ◌-◌, ◌%◌, ◌^◌, Bool, true, false, ◌&&◌, Option, none, some, List, [], ◌∷◌,
  ◌++◌, ltb, ◌==◌, if◌then◌else◌, ◌>>=◌,
}
use eset_store.Text.Number.{u32_mod}
use eset_store.Placement.Manager.{EcBlock, EcBlockGroup}
use eset_store.Blocks.Groups.{get_block_group_id}
use eset_store.WorkerJobs.Queue.{
  Store, KeyValueJobQueue, put_job, remove_the_job_from_queue, job_delete_done,
}

-- `groups` are the block groups of the job's item from blockGroupsHeader to blockGroupsTail;
-- `worker_queues` are the pending queues of the workers.
pub record BlockServerManager : Type 0 where
  pub store : Store
  pub in_processing_num : ℕ → ℕ
  pub groups : ℕ → List EcBlockGroup
  pub worker_idx : ℕ → ℕ
  pub in_processing_job_queue : KeyValueJobQueue
  pub worker_queues : ℕ → KeyValueJobQueue
  pub active_servers : List (ℕ × ℕ)

-- A server is its rack and its number in the rack.
unfoldable pub get_active_block_server : List (ℕ × ℕ) → ℕ → ℕ → Option (ℕ × ℕ)
get_active_block_server [] rack server = none
get_active_block_server ((r, s) ∷ servers) rack server =
    let rest = get_active_block_server servers rack server in
    if r == rack && s == server then some (r, s) else rest

-- A command that was sent: the server and the block.
abbrev pub Sent : Type 0
Sent = (ℕ × ℕ) × ℕ

-- The command for a block, if there is one.
unfoldable pub delete_command : List (ℕ × ℕ) → EcBlock → List Sent
unfolding get_active_block_server
delete_command servers b = elim (get_active_block_server servers b.rack_id b.server_id) [
  | none ↦ []
  | some server ↦ if ltb 0 b.block_size then (server, b.block_id) ∷ [] else []
]

-- The commands for the blocks, and the job's number after them, which is not bounded here.
unfoldable pub delete_block_group : List (ℕ × ℕ) → List EcBlock → ℕ → List Sent × ℕ
unfolding delete_command
delete_block_group servers [] num = ([], num)
delete_block_group servers (b ∷ blocks) num = elim (delete_command servers b) [
  | [] ↦ delete_block_group servers blocks num
  | sent ∷ more ↦
      let (rest, last) = delete_block_group servers blocks (num + 1) in (sent ∷ rest, last)
]

unfoldable pub delete_block_groups : List (ℕ × ℕ) → List EcBlockGroup → ℕ → List Sent × ℕ
unfolding delete_block_group
delete_block_groups servers [] num = ([], num)
delete_block_groups servers (g ∷ groups) num =
    let (sent, between) = delete_block_group servers g.blocks num in
    let (rest, last) = delete_block_groups servers groups between in (sent ++ rest, last)

unfoldable pub set_num : BlockServerManager → ℕ → ℕ → BlockServerManager
set_num m p num = record m {
  in_processing_num = λ r. if r == p then num else m.in_processing_num r;
}

unfoldable pub report_servers_delete_job_done : BlockServerManager → ℕ → BlockServerManager
unfolding put_job
report_servers_delete_job_done m p =
    let typed : Store =
      λ r. if r == p then record (m.store p) { job_type = job_delete_done } else m.store r in
    let (code, store, queue) = put_job typed (m.worker_queues (m.worker_idx p)) (some p) in
    record m {
      store = store;
      worker_queues = λ w. if w == m.worker_idx p then queue else m.worker_queues w;
    }

-- The end of performDeleteBlocksJob: the job's number, an int, is positive or not.
unfoldable pub put_or_report : BlockServerManager → ℕ → BlockServerManager
unfolding put_job report_servers_delete_job_done
put_or_report m p =
    let (code, store, queue) = put_job m.store m.in_processing_job_queue (some p) in
    if ltb 0 (m.in_processing_num p) && ltb (m.in_processing_num p) (2 ^ 31)
    then record m { store = store; in_processing_job_queue = queue }
    else report_servers_delete_job_done m p

-- The body for the groups of the item; `none`: there is no group.
unfoldable pub perform_groups :
    BlockServerManager → ℕ → List EcBlockGroup → Option (List Sent × BlockServerManager)
unfolding delete_block_groups set_num put_or_report
perform_groups m p [] = none
perform_groups m p (g ∷ groups) =
    let (sent, num) = delete_block_groups m.active_servers (g ∷ groups) 0 in
    some (sent, put_or_report (set_num m p num) p)

-- With the job's number at 0, as performServerJobs sets it.
unfoldable pub perform_delete_blocks_job :
    BlockServerManager → ℕ → Option (List Sent × BlockServerManager)
unfolding perform_groups
perform_delete_blocks_job m p = perform_groups m p (m.groups p)

unfoldable pub job_has_the_block : List EcBlockGroup → ℕ → Option Bool
job_has_the_block [] id = none
job_has_the_block (g ∷ []) id = some (id == g.block_group_id)
job_has_the_block (g ∷ h ∷ groups) id =
    let rest = job_has_the_block (h ∷ groups) id in
    if id == g.block_group_id then some true else rest

-- The loop of reportBlockDeletion: `jobPtr` after it, and whether the job was found.
unfoldable pub find_job : ℕ → BlockServerManager → Option ℕ → ℕ → Option (Option ℕ × Bool)
unfolding job_has_the_block
find_job zero m p id = some (p, false)
find_job (suc left) m none id = none
find_job (suc left) m (some p) id = job_has_the_block (m.groups p) id >>= λ has.
    let rest = find_job left m (m.store p).next id in if has then some (some p, true) else rest

-- `if (jobPtr->inProcessingNum == 0)`
unfoldable pub finish_job : BlockServerManager → ℕ → Option BlockServerManager
unfolding remove_the_job_from_queue report_servers_delete_job_done
finish_job m p =
    let done = remove_the_job_from_queue m.store m.in_processing_job_queue p >>= λ (store, queue).
    some (
      report_servers_delete_job_done (record m { store = store; in_processing_job_queue = queue })
        p) in
    if m.in_processing_num p == 0 then done else some m

-- The flag of the report is not used. The number is an int.
unfoldable pub report_block_deletion : BlockServerManager → ℕ → Option BlockServerManager
unfolding get_block_group_id find_job set_num finish_job
report_block_deletion m block_id =
    find_job m.in_processing_job_queue.job_size m m.in_processing_job_queue.job_ptr
      (get_block_group_id block_id)
    >>= λ (job, found). job >>= λ p.
        finish_job
          (if found then set_num m p ((m.in_processing_num p + u32_mod - 1) % u32_mod) else m) p

-- The reports that come in, one after the other.
unfoldable pub report_all : BlockServerManager → List ℕ → Option BlockServerManager
unfolding report_block_deletion
report_all m [] = some m
report_all m (id ∷ ids) = report_block_deletion m id >>= λ m'. report_all m' ids
