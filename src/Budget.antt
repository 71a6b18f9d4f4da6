-- ===== src/Budget.antt =====
-- The probe budget of one VNU session: apps/worker/src/vnu/vnu-probe-budget.ts and
-- vnu-probe-budget-durable-object.ts.
pub mod Window
pub mod Checks
pub mod Store
pub mod Bounds
pub mod SingleUse
pub mod Alarm
pub mod Coordinator
pub mod Abandoned
pub mod Presented
mod Tests
