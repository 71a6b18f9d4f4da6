-- ===== src/Captcha.antt =====
-- The relay of verification codes between a sign-in that waits and the user who types:
-- apps/worker/src/captcha.
pub mod Local
pub mod Draw
pub mod Settled
pub mod Single
pub mod Object
pub mod Forgotten
pub mod Cloudflare
mod Tests
