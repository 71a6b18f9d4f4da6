-- ===== src/Protocol.antt =====
-- The protocol between the server and its automation workers: packages/automation-protocol/src/index.ts.
pub mod Ids
pub mod Cursor
pub mod Sequence
pub mod Accepted
pub mod Reader
pub mod Runs
mod Tests
