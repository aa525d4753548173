-- ===== src/Client/Mitm.antt =====
-- crates/mq-proxy/src/client/mitm: interception of TLS.
pub mod Policy
