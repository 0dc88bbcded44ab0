-- ===== src/Node.antt =====
-- crates/wsnet-node/src: the node's decisions about its Hubs.
pub mod Health
pub mod Select
