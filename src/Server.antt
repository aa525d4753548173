-- ===== src/Server.antt =====
-- crates/mq-proxy/src/server: the origin side of the gateway.
pub mod Accounting
