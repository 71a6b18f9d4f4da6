-- ===== src/Refresh.antt =====
-- The control of VNU refreshes: apps/worker/src/vnu/vnu-refresh-control.ts and
-- vnu-refresh-control-durable-object.ts.
pub mod State
pub mod Valid
pub mod Transitions
pub mod Store
pub mod Cases
pub mod Same
pub mod Calls
pub mod Parsed
pub mod Revocation
pub mod Permanence
pub mod Forever
pub mod Revoked
pub mod Shapes
pub mod Targets
pub mod Preserve
pub mod Exclusive
pub mod Coordinator
pub mod Available
mod Tests
