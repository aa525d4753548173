-- ===== src/Runtime.antt =====
-- crates/mq-runtime: what the shards and the drivers keep.
pub mod Deadlines
pub mod Routing
pub mod TxRing
