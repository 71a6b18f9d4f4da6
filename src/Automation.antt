-- ===== src/Automation.antt =====
-- The worker that runs import jobs from a stream: apps/automation-worker/src.
pub mod Lease
pub mod Exclusive
pub mod Events
pub mod Worker
pub mod Effects
pub mod Acknowledged
pub mod Terminal
pub mod Broker
pub mod Accounts
pub mod Delivery
pub mod Control
pub mod Batches
pub mod Drained
pub mod Parsing
mod Tests
mod Scenarios
