-- ===== src/Scenarios.antt =====
-- A small cluster and a scripted data plane: the theorems at concrete inputs.
pub mod Parts
pub mod Maps
pub mod Slices
pub mod Rules
mod Hosts
mod Watching
mod Storing
mod Starting
pub mod Planes
mod Serving
mod Cleaning
