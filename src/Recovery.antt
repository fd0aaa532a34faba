-- ===== src/Recovery.antt =====
-- Which ESets and blocks a failed server takes with it: ECMeta/ECRecoveryManagement.c.
pub mod Failed
mod Marked
mod Lost
pub mod Selected
mod Pending
mod Queued
mod PendingTests
mod Nodes
mod Sorted
mod Alive
mod OneFailure
mod NodeTests
mod Rounds
mod Waits
mod Round
mod Ask
mod Ends
mod RoundTests
mod Tests
