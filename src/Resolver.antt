-- ===== src/Resolver.antt =====
-- The VNU student-id resolver: apps/worker/src/vnu/vnu-student-id-resolver.ts.
pub mod Candidates
pub mod Pool
pub mod Search
pub mod Window
pub mod Occupied
pub mod Sequential
pub mod Prefix
pub mod Outcomes
pub mod Turns
pub mod Priority
mod Tests
