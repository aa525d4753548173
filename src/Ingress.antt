-- ===== src/Ingress.antt =====
-- crates/mq-proxy/src/ingress: the parsers of what a local application sends first.
pub mod Request
pub mod Socks5
pub mod HttpConnect
