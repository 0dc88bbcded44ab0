-- ===== src/Transport.antt =====
-- crates/wsnet-transport: what the carriers put on the wire.
pub mod Error
pub mod Post
pub mod Sse
