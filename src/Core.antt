-- ===== src/Core.antt =====
-- packages/core/src/index.ts: the envelopes that carry sessions and permits.
pub mod Base64
pub mod Json
pub mod Permit
pub mod RoundTrip
mod Tests
