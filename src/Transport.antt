-- ===== src/Transport.antt =====
-- crates/mq-transport and crates/mq-transport-api: the handles and buffers of the transport.
pub mod Slots
pub mod RingBuf
pub mod TxQueues
pub mod Ids
pub mod Event
pub mod Time
