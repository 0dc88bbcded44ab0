-- ===== src/Protocol.antt =====
-- crates/wsnet-protocol: message kinds and records.
pub mod Kind
pub mod Canon
pub mod Record
