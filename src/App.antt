-- ===== src/App.antt =====
-- server/app: the choice of mode and algorithm, address pairs, cleanup, and the conntrack settings.
pub mod Settings
pub mod Cleanup
pub mod Conntrack
pub mod Server
pub mod Wiring
pub mod Loading
