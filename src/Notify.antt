-- ===== src/Notify.antt =====
-- components/notify: the Telegram messages about the UPS, how they are queued, and how they are
-- delivered.
pub mod State
pub mod Status
pub mod Worker
pub mod History
mod Tests
