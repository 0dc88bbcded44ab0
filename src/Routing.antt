-- ===== src/Routing.antt =====
-- crates/wsnet-routing: who may reach what.
pub mod Acl
pub mod Destination
pub mod Router
