-- ===== src/WorkerJobs.antt =====
-- The jobs of the metadata server's workers: ECMeta/ECJob.c, and the loop by which startWorker of
-- ECMeta/KeyValueWorker.c takes over the jobs that are pending.
pub mod Queue
pub mod Held
mod Order
mod Tests
