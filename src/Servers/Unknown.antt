-- ===== src/Servers/Unknown.antt =====
-- Reports for a block that no job in process has: reportBlockDeletion of Servers/Deletes.antt.
use eset_store.Base.{ℕ, Option, none, some, List, [], ◌∷◌, ◌>>=◌, ◌==◌, if◌then◌else◌}
use eset_store.WorkerJobs.Queue.{Store, remove_the_job_from_queue}
use eset_store.Servers.Deletes.{BlockServerManager, report_servers_delete_job_done}

-- The pointer behind the last job: its `next`, or where the queue begins.
abbrev pub behind_last : Store → Option ℕ → List ℕ → Option ℕ
behind_last store from [] = from
behind_last store from (x ∷ xs) = behind_last store (store x).next xs

-- What is made of a pointer that is taken for a job: NULL is a fault; a job whose number is 0 is taken
-- out of the queue and handed to its worker, and otherwise nothing is changed.
abbrev pub taken_for_job : BlockServerManager → Option ℕ → Option BlockServerManager
taken_for_job m none = none
taken_for_job m (some p) =
    let out = remove_the_job_from_queue m.store m.in_processing_job_queue p >>= λ (store, queue).
    some (
      report_servers_delete_job_done (record m { store = store; in_processing_job_queue = queue })
        p) in
    if m.in_processing_num p == 0 then out else some m
