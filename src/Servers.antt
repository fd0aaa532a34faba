-- ===== src/Servers.antt =====
-- The storage servers as the metadata server sees them: ECMeta/BlockServer.c.
mod Deletes
mod Queue
mod Done
mod Commands
mod Unknown
mod Outbox
mod Tests
