-- ===== src/Wire/Frames/UdpSession.antt =====
-- crates/mq-wire/src/frames.rs: UDP_SESSION_OPEN and UDP_SESSION_RESP.
pub mod Open
pub mod Response
use mqproxy.Prelude.{
  ℕ, ◌^◌, List, [], ◌∷◌, Result, ok, err, ◌>>=◌, ok_or, Option, Bool, ◌==◌, ltb, if◌then◌else◌,
}
use mqproxy.Wire.Frames.Codes.{
  DecodeError, EncodeError, AddrType, addr_type_as_u8, addr_type_from_raw, UdpErr, udp_err_from_raw,
  status_ok, max_host, max_message, udp_status_code_valid,
}
use mqproxy.Wire.Frames.ConnectTcp.{port_bytes}
use mqproxy.Wire.Frames.Cursor
use mqproxy.Wire.Frames.CursorMut

pub record UdpSessionOpen : Type 0 where
  pub session_id : ℕ
  pub flags : ℕ
  pub address_type : AddrType
  pub host : List ℕ
  pub port : ℕ
  pub idle_timeout_ms : ℕ

pub record UdpSessionResp : Type 0 where
  pub status : ℕ
  pub error_code : ℕ
  pub message : List ℕ
  pub idle_timeout_ms : ℕ

-- Varint session_id, varint flags, byte address_type, string host, two bytes port,
-- varint idle_timeout_ms, padding.
unfoldable pub encode_open : UdpSessionOpen → List ℕ → Result EncodeError (List ℕ × ℕ)
encode_open f out = do
  w ← CursorMut.varint (CursorMut.new out) f.session_id
  w ← CursorMut.varint w f.flags
  w ← CursorMut.bytes w (addr_type_as_u8 f.address_type ∷ [])
  w ← CursorMut.string w f.host max_host
  w ← CursorMut.bytes w (port_bytes f.port)
  w ← CursorMut.varint w f.idle_timeout_ms
  CursorMut.finish w

-- `u32::try_from`.
abbrev pub try_u32 : ℕ → Result DecodeError ℕ
try_u32 v = if ltb v (2 ^ 32) then ok v else err DecodeError.invalid

unfoldable pub decode_open : List ℕ → Result DecodeError (UdpSessionOpen × ℕ)
decode_open buf = do
  (sid, r) ← Cursor.varint (Cursor.new buf)
  session_id ← try_u32 sid
  (flags, r) ← Cursor.varint r
  (code, r) ← Cursor.u8 r
  address_type ← ok_or (addr_type_from_raw code) DecodeError.invalid
  (host, r) ← Cursor.string r max_host
  (port, r) ← Cursor.u16 r
  (idle_timeout_ms, r) ← Cursor.varint r
  n ← Cursor.finish r
  ok (
    record {
      session_id = session_id;
      flags = flags;
      address_type = address_type;
      host = host;
      port = port;
      idle_timeout_ms = idle_timeout_ms;
    },
    n,
  )

unfoldable write_udp_resp : UdpSessionResp → List ℕ → Result EncodeError (List ℕ × ℕ)
write_udp_resp f out = do
  w ← CursorMut.bytes (CursorMut.new out) (f.status ∷ [])
  w ← CursorMut.varint w f.error_code
  w ← CursorMut.string w f.message max_message
  w ← CursorMut.varint w f.idle_timeout_ms
  CursorMut.finish w

-- Byte status, varint error_code, string message, varint idle_timeout_ms, padding.
unfoldable pub encode_udp_resp : UdpSessionResp → List ℕ → Result EncodeError (List ℕ × ℕ)
unfolding write_udp_resp
encode_udp_resp f out =
    if udp_status_code_valid f.status f.error_code
    then write_udp_resp f out
    else err EncodeError.bad_value

unfoldable read_udp_resp_rest : ℕ → ℕ → Cursor.Cursor → Result DecodeError (UdpSessionResp × ℕ)
read_udp_resp_rest status error_code r = do
  (message, r) ← Cursor.string r max_message
  (idle_timeout_ms, r) ← Cursor.varint r
  n ← Cursor.finish r
  ok (
    record {
      status = status;
      error_code = error_code;
      message = message;
      idle_timeout_ms = idle_timeout_ms;
    },
    n,
  )

-- The pairing of status and code is checked before the message is read.
unfoldable pub decode_udp_resp : List ℕ → Result DecodeError (UdpSessionResp × ℕ)
unfolding read_udp_resp_rest
decode_udp_resp buf = do
  (status, r) ← Cursor.u8 (Cursor.new buf)
  (error_code, r) ← Cursor.varint r
  (if udp_status_code_valid status error_code
      then read_udp_resp_rest status error_code r
      else err DecodeError.invalid)

-- The typed readings of a response: `error` and `udp_resp_is_ok`.
unfoldable pub udp_resp_error : UdpSessionResp → Option UdpErr
udp_resp_error f = udp_err_from_raw f.error_code

unfoldable pub udp_resp_is_ok : UdpSessionResp → Bool
udp_resp_is_ok f = f.status == status_ok
