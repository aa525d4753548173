-- ===== src/Lib.antt =====
-- A verification library for mqproxy, a proxy that carries TCP and UDP over multipath QUIC: its wire
-- formats, the parsers of what arrives, and the tables and buffers that hold what waits.
--
-- A local application's bytes go through an ingress parser (crates/mq-proxy/src/ingress), which gives a
-- target; the request waits in the client's pending queue until the tunnel serves, whose retries the
-- backoff schedules (crates/mq-proxy/src/client). Client and server then exchange the frames of
-- crates/mq-wire on QUIC streams, and UDP payloads as datagrams that are split, held back while their
-- session is not open, and put together again (crates/mq-proxy/src/udp). Connections and streams live in
-- slot tables, and relayed bytes in buffers (crates/mq-transport, crates/mq-transport-api). The gateway
-- reads HTTP heads (crates/mq-http).
--
-- The files and the code that they model:
--   Wire/Varint: crates/mq-wire/src/varint.rs, `len`, `encode` and `decode`.
--   Wire/Frames: crates/mq-wire/src/frames.rs. Codes has the constants and enums, Cursor and CursorMut
--     the two cursors, Auth, ConnectTcp and UdpSession the frames; Codec is the interface that each frame
--     fills and the laws that follow from it; Kinds has the six frames as one family.
--   Wire/UdpMsg: crates/mq-wire/src/udp_msg.rs, the header and `split`.
--   Udp/Defrag, Udp/PreOpen, Udp/Socks5Udp, Udp/Send: defrag.rs, preopen.rs, socks5udp.rs and send.rs of
--     crates/mq-proxy/src/udp. Send/Emits is about the closure of `send_packet`, and Send/Delivery
--     joins the sender to the defragmenter.
--   Ingress/Request, Ingress/Socks5, Ingress/HttpConnect: request.rs, socks5.rs and http_connect.rs of
--     crates/mq-proxy/src/ingress, with the targets of crates/mq-runtime/src/app.rs.
--   Client/Backoff, Client/Pending, Client/Paths: backoff.rs, pending.rs and paths.rs of
--     crates/mq-proxy/src/client. The runtime's answers are fields of Cx, and its calls a log.
--   Client/UdpAssoc, Client/UdpSession: udp_assoc.rs of the same directory, and of udp_session.rs the
--     allocation of session ids and the queue before authentication.
--   Client/Sessions: the session table of udp_session.rs, `end_session`, `end_assoc`, `udp_conn_gone`, and the
--     changes of the table in `udp_outbound` and `issue`; Laws is about its two maps, Reach about every run.
--   Client/Mitm/Policy: crates/mq-proxy/src/client/mitm/policy.rs.
--   Server/Accounting: crates/mq-proxy/src/server/origin/accounting.rs, with the scan of the records in
--     `settle` of pump.rs.
--   Transport/Slots: crates/mq-transport/src/slots.rs, with the ids of crates/mq-transport-api/src/ids.rs.
--   Transport/Ids, Transport/Time, Transport/RingBuf: ids.rs, time.rs and ringbuf.rs of
--     crates/mq-transport-api/src.
--   Transport/TxQueues: crates/mq-transport/src/txq.rs; Queue is one queue, Laws the limits, Contents what
--     waits in the queues, Resume the blocked connections.
--   Transport/Event: the data types of crates/mq-transport-api/src/event.rs.
--   Runtime/TxRing: crates/mq-runtime/src/shard/tx_ring.rs, over Transport/RingBuf.
--   Runtime/Deadlines: crates/mq-runtime/src/driver/deadlines.rs.
--   Runtime/Routing: the UDP sockets of crates/mq-runtime/src/shard/routing.rs, with `add_path` of app.rs; Laws is
--     about live sockets, Invariant about what each call keeps, Closing about the end of a connection.
--   H3/OutQueue: crates/mq-h3/src/queue.rs.
--   Http/Limits, Http/Head: crates/mq-http/src/limits.rs and h1.rs.
--   Http/Target, Http/Rules: crates/mq-http/src/headers.rs, the target of a request and the other rules.
--   Prelude: shared names, tests, lists, results, bits and byte searches. Tests: runs on small inputs.
--
-- Bytes are numbers below 256, and byte strings are lists of them; integers are natural numbers, whose
-- wrap-around is written out where a machine integer can wrap. A function on `&mut self` takes the state
-- and gives the new one. A panic (an index out of range, a failed assertion) is `none`, an error is a
-- value. The calls of a callback are the list of what it was called with.
--
-- Loops are structural, but for the loop of `split` on chunks and that of the header lines: their fuel is
-- the length of the payload and of the head, and each turn takes at least one byte, or two. A number is
-- printed with fuel for twenty digits, the most that a u64 has.
--
-- Parameters stand for the standard library's check of UTF-8 and its parsers of IP literals, and for the
-- runtime's answers. The searches of a free session id have fuel for one id more than there can be sessions.
-- Not modelled are the calls of the xquic, HTTP/3 and TLS libraries, system calls, the drivers, the command
-- line, the metrics, and the connection state machines of the client and the server.
pub mod Prelude
pub mod Wire
pub mod Udp
pub mod Ingress
pub mod Transport
pub mod Client
pub mod H3
pub mod Runtime
pub mod Server
pub mod Http
pub mod Tests
