-- ===== src/H3.antt =====
-- crates/mq-h3: HTTP/3 over the transport.
pub mod OutQueue
