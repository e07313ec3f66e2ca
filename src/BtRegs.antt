-- ===== src/BtRegs.antt =====
-- components/bluetti_ble/bt_regs.c: the models, their registers and the writeable controls.
pub mod Devices
pub mod Controls
pub mod Decode
pub mod State
pub mod Apply
pub mod Plan
mod Tests
