-- ===== src/Daemon.antt =====
-- crates/latticed: the daemon.
pub mod Chat
pub mod Startup
pub mod Planner
pub mod Node
pub mod PairingSession
pub mod Generate
pub mod Runtime
