-- ===== src/Controller.antt =====
-- controller: the change trackers for services, endpoints and endpoint slices.
pub mod Changes
pub mod Service
pub mod Endpoint
pub mod Stale
pub mod Slices
pub mod Checkout
pub mod EndpointsTracker
pub mod Endpoints
