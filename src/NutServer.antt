-- ===== src/NutServer.antt =====
-- components/nut_server/nut_server.c: the upsd-compatible TCP server.
pub mod Vars
pub mod Quote
pub mod Tokens
pub mod Socket
pub mod Commands
pub mod Dispatch
pub mod Client
pub mod Serve
mod Tests
