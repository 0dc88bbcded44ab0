-- ===== src/Stream.antt =====
-- crates/wsnet-stream/src/lib.rs: the two state machines of a stream's receiving side.
pub mod Error
pub mod Reorder
pub mod Credit
