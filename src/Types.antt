-- ===== src/Types.antt =====
-- crates/ancre-types: the shapes that cross a crate boundary.
pub mod Risk
pub mod Event
