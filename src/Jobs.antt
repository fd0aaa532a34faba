-- ===== src/Jobs.antt =====
-- The queues of disk jobs of a storage server: ECServer/DiskJobQueue.c.
pub mod Queue
pub mod Fifo
mod Tests
