-- ===== src/Ha.antt =====
-- A node's life in a cluster: apps/worker/src/ha.
pub mod Config
pub mod Enforced
pub mod Warned
pub mod Lifecycle
pub mod Steps
pub mod Shutdown
mod Tests
