-- ===== src/Examples.antt =====
-- Concrete parameters, and the theorems applied to concrete inputs.
mod Codec
mod Chain
mod Config
mod Canon
mod Tamper
mod Checkpoint
mod Writer
mod Pipeline
mod Batches
mod Provider
mod Planes
mod Telemetry
mod Bodies
mod Feeds
mod Pack
