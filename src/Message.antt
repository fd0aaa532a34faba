-- ===== src/Message.antt =====
-- The message buffers of the connections: ECServer/MessageBuffer.c, and the dump of
-- ECMeta/MessageBuffer.c. ECServerPPR and ECClientLib have buffers of the same kind.
pub mod Buffer
pub mod Dump
pub mod Copy
pub mod MetaBuffer
mod Tests
