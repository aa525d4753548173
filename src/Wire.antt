-- ===== src/Wire.antt =====
-- crates/mq-wire: the wire codec of the tunnel.
pub mod Varint
pub mod Frames
pub mod UdpMsg
