-- ===== src/BtSession.antt =====
-- components/bluetti_ble/bt_session.c: the key exchange with the power station, the AES frames and
-- Modbus inside them.
pub mod State
pub mod Wire
pub mod Cipher
pub mod Handshake
pub mod Modbus
pub mod Feed
pub mod Trust
mod Tests
