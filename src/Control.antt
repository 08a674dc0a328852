-- ===== src/Control.antt =====
-- crates/ancre-control: the control plane seals the chains.
pub mod Checkpointer
