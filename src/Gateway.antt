-- ===== src/Gateway.antt =====
-- crates/ancre-gateway: what the gateway keeps of the requests that it serves.
pub mod Telemetry
pub mod Tap
pub mod ConfigFeed
