-- ===== src/Socks.antt =====
-- crates/wsnet-socks: the SOCKS server.
pub mod Wire
