-- ===== src/Protocol.antt =====
-- The commands between the metadata server and its storage servers.
mod Commands
mod Replies
mod Exchange
mod Reading
mod Deletion
mod Stream
mod Reports
mod Tests
