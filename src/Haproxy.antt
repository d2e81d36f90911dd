-- ===== src/Haproxy.antt =====
-- haproxy: the client of the data plane API, graceful termination, and the proxier.
pub mod Action
pub mod Types
pub mod Dataplane
pub mod Handle
pub mod Operations
pub mod Graceful
pub mod Sync
pub mod Proxier
pub mod Host
