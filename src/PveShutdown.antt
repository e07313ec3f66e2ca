-- ===== src/PveShutdown.antt =====
-- components/pve_shutdown: the shutdown of Proxmox hosts on UPS events.
pub mod Engine
pub mod Observe
pub mod Run
mod Tests
