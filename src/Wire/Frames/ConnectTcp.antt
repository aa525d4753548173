-- ===== src/Wire/Frames/ConnectTcp.antt =====
-- crates/mq-wire/src/frames.rs: CONNECT_TCP_REQUEST and CONNECT_TCP_RESPONSE.
pub mod Request
pub mod Response
use mqproxy.Prelude.{ℕ, ◌/◌, ◌%◌, List, [], ◌∷◌, Result, ok, ◌>>=◌, ok_or, Option, Bool, ◌==◌}
use mqproxy.Wire.Frames.Codes.{
  DecodeError, EncodeError, AddrType, addr_type_as_u8, addr_type_from_raw, TcpErr, tcp_err_from_raw,
  status_ok, max_host, max_message,
}
use mqproxy.Wire.Frames.Cursor
use mqproxy.Wire.Frames.CursorMut

pub record ConnectTcpReq : Type 0 where
  pub flags : ℕ
  pub address_type : AddrType
  pub host : List ℕ
  pub port : ℕ

pub record ConnectTcpResp : Type 0 where
  pub status : ℕ
  pub error_code : ℕ
  pub message : List ℕ

-- `u16::to_be_bytes`.
abbrev pub port_bytes : ℕ → List ℕ
port_bytes port = port / 256 % 256 ∷ port % 256 ∷ []

-- Varint flags, byte address_type, string host, two bytes port, padding.
unfoldable pub encode_tcp_req : ConnectTcpReq → List ℕ → Result EncodeError (List ℕ × ℕ)
encode_tcp_req f out = do
  w ← CursorMut.varint (CursorMut.new out) f.flags
  w ← CursorMut.bytes w (addr_type_as_u8 f.address_type ∷ [])
  w ← CursorMut.string w f.host max_host
  w ← CursorMut.bytes w (port_bytes f.port)
  CursorMut.finish w

unfoldable pub decode_tcp_req : List ℕ → Result DecodeError (ConnectTcpReq × ℕ)
decode_tcp_req buf = do
  (flags, r) ← Cursor.varint (Cursor.new buf)
  (code, r) ← Cursor.u8 r
  address_type ← ok_or (addr_type_from_raw code) DecodeError.bad_value
  (host, r) ← Cursor.string r max_host
  (port, r) ← Cursor.u16 r
  n ← Cursor.finish r
  ok (record { flags = flags; address_type = address_type; host = host; port = port }, n)

-- Byte status, varint error_code, string message, padding.
unfoldable pub encode_tcp_resp : ConnectTcpResp → List ℕ → Result EncodeError (List ℕ × ℕ)
encode_tcp_resp f out = do
  w ← CursorMut.bytes (CursorMut.new out) (f.status ∷ [])
  w ← CursorMut.varint w f.error_code
  w ← CursorMut.string w f.message max_message
  CursorMut.finish w

unfoldable pub decode_tcp_resp : List ℕ → Result DecodeError (ConnectTcpResp × ℕ)
decode_tcp_resp buf = do
  (status, r) ← Cursor.u8 (Cursor.new buf)
  (error_code, r) ← Cursor.varint r
  (message, r) ← Cursor.string r max_message
  n ← Cursor.finish r
  ok (record { status = status; error_code = error_code; message = message }, n)

-- The typed readings of a response: `error` and `tcp_resp_is_ok`.
unfoldable pub tcp_resp_error : ConnectTcpResp → Option TcpErr
tcp_resp_error f = tcp_err_from_raw f.error_code

unfoldable pub tcp_resp_is_ok : ConnectTcpResp → Bool
tcp_resp_is_ok f = f.status == status_ok
