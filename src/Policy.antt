-- ===== src/Policy.antt =====
-- The feature policy of a deployment: apps/worker/src/policy/feature-policy.ts and the store of
-- apps/worker/src/policy/feature-policy-store.ts.
pub mod Content
pub mod Resolve
pub mod University
pub mod Ceilings
pub mod Dashboard
pub mod Store
pub mod History
pub mod Pages
pub mod Audit
pub mod Runtime
pub mod Rollback
pub mod Restored
pub mod Events
pub mod Told
mod Tests
mod Scenarios
mod Recovery
