-- ===== src/Wire/Frames.antt =====
-- crates/mq-wire/src/frames.rs: the AUTH, CONNECT_TCP and UDP_SESSION control frames.
pub mod Codes
pub mod Cursor
pub mod CursorMut
pub mod Codec
pub mod Auth
pub mod ConnectTcp
pub mod UdpSession
pub mod Kinds
