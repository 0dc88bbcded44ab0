-- ===== src/Session.antt =====
-- crates/wsnet-session: what a session checks before it is used.
pub mod Bind
