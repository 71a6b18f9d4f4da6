-- ===== src/Lookup.antt =====
-- The bulk lookup of the web client: apps/web/src/lib/lookup/bulk-lookup.ts.
pub mod Chunks
pub mod Bulk
pub mod Accounting
pub mod Progress
pub mod Targets
pub mod Completed
mod Tests
