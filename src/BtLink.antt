-- ===== src/BtLink.antt =====
-- components/bluetti_ble/bluetti_ble.c: the polling of the power station and the queue of control writes.
pub mod State
pub mod Writes
pub mod Poll
pub mod Events
mod Tests
