-- ===== src/Http.antt =====
-- crates/mq-http: the limits on header sections, the HTTP/1.1 heads, and the header rules of the gateway.
pub mod Limits
pub mod Head
pub mod Target
pub mod Rules
