-- ===== src/Ingester.antt =====
-- crates/ancre-ingester: sequence numbers, chaining and storing.
pub mod Writer
pub mod Sink
pub mod Pipeline
