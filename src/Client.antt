-- ===== src/Client.antt =====
-- crates/mq-proxy/src/client: the reconnect schedule, the requests that wait for it, the paths, and TLS interception.
pub mod Backoff
pub mod Pending
pub mod UdpAssoc
pub mod UdpSession
pub mod Sessions
pub mod Paths
pub mod Mitm
