-- ===== src/Transport/Event.antt =====
-- crates/mq-transport-api/src/event.rs: what the transport reports. Signed fields are their two's complement.
use mqproxy.Prelude.{ℕ, List, Option}
use mqproxy.Transport.Ids.{GenId}

pub data ErrType : Type 0 where
  unknown : ErrType
  transport : ErrType
  application : ErrType

pub record CloseReason : Type 0 where
  pub err_type : ErrType
  pub code : ℕ

pub data StreamKind : Type 0 where
  bidi : StreamKind
  uni : StreamKind

pub record StreamInfo : Type 0 where
  pub conn : GenId
  pub quic_id : ℕ
  pub kind : StreamKind

-- `close_msg` is its bytes.
pub record StreamCloseStats : Type 0 where
  pub fin_send_us : ℕ
  pub fin_ack_us : ℕ
  pub mp_state : ℕ
  pub stream_err : ℕ
  pub close_msg : Option (List ℕ)

pub record H3ReqStats : Type 0 where
  pub send_body : ℕ
  pub recv_body : ℕ
  pub begin_us : ℕ
  pub header_send_us : ℕ
  pub fin_send_us : ℕ
  pub fin_ack_us : ℕ
  pub mp_state : ℕ
  pub stream_err : ℕ
  pub close_msg : Option (List ℕ)

-- The protocols of a connection.
pub data ConnProto : Type 0 where
  raw : ConnProto
  h3 : ConnProto

pub data Event : Type 0 where
  conn_established : GenId → Event
  conn_closed : GenId → CloseReason → Event
  new_conn : GenId → ConnProto → Event
  new_stream : GenId → GenId → StreamInfo → Event
  stream_readable : GenId → Event
  stream_writable : GenId → Event
  stream_closed : GenId → Event
  stream_peer_reset : GenId → ℕ → Event
  stream_stop_sending : GenId → ℕ → Event
  stream_close_stats : GenId → StreamCloseStats → Event
  mp_ready : GenId → Event
  datagram_readable : GenId → Event
  path_removed : GenId → ℕ → Event
  h3_request : GenId → GenId → Event
  h3_readable : GenId → Event
  h3_writable : GenId → Event
  h3_closed : GenId → H3ReqStats → Event
