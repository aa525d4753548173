-- ===== src/Udp.antt =====
-- crates/mq-proxy/src/udp: the parts of the UDP lane that both ends share.
pub mod Defrag
pub mod PreOpen
pub mod Send
pub mod Socks5Udp
