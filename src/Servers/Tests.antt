-- ===== src/Servers/Tests.antt =====
-- Runs of the deletion jobs, and the theorems about them on a concrete job.
use mathlib.Core.Option
use native.Mathlib.Omega.{arith}
use eset_store.Base.{ℕ, ◌≡◌, refl, List, none, some, [], ◌∷◌}
use eset_store.Placement.Manager.{EcBlock, EcBlockGroup}
use eset_store.WorkerJobs.Queue.{KeyValueJob, job_delete}
use eset_store.Blocks.Groups.{get_block_group_id}
use eset_store.Servers.Deletes.{
  BlockServerManager, perform_delete_blocks_job, report_all, report_block_deletion,
  job_has_the_block,
}
use eset_store.Servers.Done.{Done}
use eset_store.Servers.Commands.{sent_of, perform_delete_blocks_job-report_all}
use eset_store.Servers.Outbox.{
  WriteBuffer, default_read_write_buf_size, add_write_msg_to_blockserver, Waits,
  add_write_msg_to_blockserver-Waits,
}

abbrev block : ℕ → ℕ → ℕ → EcBlock
block id server size = record {
  block_id = id;
  server_id = server;
  rack_id = 0;
  missing_flag = 0;
  recovered_flag = 0;
  block_size = size;
}

-- Four blocks: on server 1, on server 2, which is gone, without data, and on server 3.
abbrev group : EcBlockGroup
group = record {
  block_group_id = 256;
  block_group_size = 64;
  blocks = block 256 1 64 ∷ block 257 2 64 ∷ block 258 1 0 ∷ block 259 3 64 ∷ [];
  set_idx = 0;
}

abbrev job : ℕ → KeyValueJob
job p = record {
  key = p ∷ [];
  client_thread_idx = 0;
  client_conn_idx = 0;
  hash_value = 0;
  job_type = job_delete;
  next = none;
  write_size = 0;
}

abbrev manager : BlockServerManager
manager = record {
  store = job;
  in_processing_num = λ p. 0;
  groups = λ p. group ∷ [];
  worker_idx = λ p. 0;
  in_processing_job_queue = record { job_ptr = none; job_size = 0 };
  worker_queues = λ w. record { job_ptr = none; job_size = 0 };
  active_servers = (0, 1) ∷ (0, 3) ∷ [];
}

perform_delete_blocks_job_run :
    Option.map (λ r. r.0) (perform_delete_blocks_job manager 9)
    ≡ some (((0, 1), 256) ∷ ((0, 3), 259) ∷ [])
unfolding perform_delete_blocks_job
perform_delete_blocks_job_run = refl

perform_delete_blocks_job-report_all_example :
    (sent : BlockServerManager) × (done : BlockServerManager) × (perform_delete_blocks_job manager 9
      ≡ some (sent_of manager 9, sent))
    × (report_all sent (259 ∷ 256 ∷ []) ≡ some done)
    × Done manager done 9 []
unfolding job_has_the_block get_block_group_id
perform_delete_blocks_job-report_all_example =
    perform_delete_blocks_job-report_all manager 9 group [] [] (259 ∷ 256 ∷ []) refl (omega arith)
      tt ((refl, tt), ((refl, tt), tt)) refl (omega arith)

-- No job is in process; job 9, which is done, is behind the queue, and is handed to its worker again.
abbrev late : BlockServerManager
late = record manager { in_processing_job_queue = record { job_ptr = some 9; job_size = 0 } }

report_again_run :
    Option.map (λ m. (m.worker_queues 0).job_ptr) (report_block_deletion late 256) ≡ some (some 9)
unfolding report_block_deletion
report_again_run = refl

report_block_deletion_run : report_block_deletion manager 256 ≡ none
unfolding report_block_deletion
report_block_deletion_run = refl

-- Two bytes fit into the buffer, the third one goes into a fresh one.
abbrev outbox : List WriteBuffer
outbox = record { written = 1 ∷ []; buf_size = 3 } ∷ []

add_write_msg_to_blockserver_run :
    add_write_msg_to_blockserver 4 outbox (7 ∷ 8 ∷ 9 ∷ [])
    ≡ some (
        record { written = 1 ∷ 7 ∷ 8 ∷ []; buf_size = 3 }
        ∷ record { written = 9 ∷ []; buf_size = default_read_write_buf_size }
        ∷ [])
unfolding add_write_msg_to_blockserver
add_write_msg_to_blockserver_run = refl

add_write_msg_to_blockserver-Waits_example :
    Waits (add_write_msg_to_blockserver 4 outbox (7 ∷ 8 ∷ 9 ∷ [])) (1 ∷ 7 ∷ 8 ∷ 9 ∷ [])
add_write_msg_to_blockserver-Waits_example =
    add_write_msg_to_blockserver-Waits 4 (record { written = 1 ∷ []; buf_size = 3 }) []
      (7 ∷ 8 ∷ 9 ∷ []) (omega arith) (omega arith)
