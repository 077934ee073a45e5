-- ===== src/Webhooks.antt =====
-- The webhooks: src/webhooks.
pub mod Types
pub mod Service
pub mod Dispatch
pub mod Processor
pub mod Health
pub mod Steps
pub mod Fanout
pub mod Attempts
mod Tests
