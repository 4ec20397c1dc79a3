-- ===== src/Webhook.antt =====
-- The callbacks to the application's backend, server/webhook.
pub mod Breaker
pub mod SyncCall
pub mod Async
pub mod Health
