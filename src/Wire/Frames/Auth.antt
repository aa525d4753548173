-- ===== src/Wire/Frames/Auth.antt =====
-- crates/mq-wire/src/frames.rs: AUTH_REQUEST and AUTH_RESPONSE.
pub mod Request
pub mod Response
use mqproxy.Prelude.{ℕ, List, [], ◌∷◌, Result, ok, ◌>>=◌, Option, Bool, ◌==◌}
use mqproxy.Wire.Frames.Codes.{
  DecodeError, EncodeError, AuthErr, auth_err_from_raw, status_ok, max_client_id, max_auth_token,
  max_server_id,
}
use mqproxy.Wire.Frames.Cursor
use mqproxy.Wire.Frames.CursorMut

pub record AuthReq : Type 0 where
  pub version : ℕ
  pub client_id : List ℕ
  pub auth_token : List ℕ
  pub features : ℕ

pub record AuthResp : Type 0 where
  pub status : ℕ
  pub error_code : ℕ
  pub server_id : List ℕ
  pub features : ℕ

-- Varint version, string client_id, string auth_token, varint features, padding.
unfoldable pub encode_auth_req : AuthReq → List ℕ → Result EncodeError (List ℕ × ℕ)
encode_auth_req f out = do
  w ← CursorMut.varint (CursorMut.new out) f.version
  w ← CursorMut.string w f.client_id max_client_id
  w ← CursorMut.string w f.auth_token max_auth_token
  w ← CursorMut.varint w f.features
  CursorMut.finish w

unfoldable pub decode_auth_req : List ℕ → Result DecodeError (AuthReq × ℕ)
decode_auth_req buf = do
  (version, r) ← Cursor.varint (Cursor.new buf)
  (client_id, r) ← Cursor.string r max_client_id
  (auth_token, r) ← Cursor.string r max_auth_token
  (features, r) ← Cursor.varint r
  n ← Cursor.finish r
  ok (
    record {
      version = version;
      client_id = client_id;
      auth_token = auth_token;
      features = features;
    },
    n,
  )

-- Byte status, varint error_code, string server_id, varint features, padding.
unfoldable pub encode_auth_resp : AuthResp → List ℕ → Result EncodeError (List ℕ × ℕ)
encode_auth_resp f out = do
  w ← CursorMut.bytes (CursorMut.new out) (f.status ∷ [])
  w ← CursorMut.varint w f.error_code
  w ← CursorMut.string w f.server_id max_server_id
  w ← CursorMut.varint w f.features
  CursorMut.finish w

unfoldable pub decode_auth_resp : List ℕ → Result DecodeError (AuthResp × ℕ)
decode_auth_resp buf = do
  (status, r) ← Cursor.u8 (Cursor.new buf)
  (error_code, r) ← Cursor.varint r
  (server_id, r) ← Cursor.string r max_server_id
  (features, r) ← Cursor.varint r
  n ← Cursor.finish r
  ok (
    record { status = status; error_code = error_code; server_id = server_id; features = features },
    n,
  )

-- The typed readings of a response: `error` and `auth_resp_is_ok`.
unfoldable pub auth_resp_error : AuthResp → Option AuthErr
auth_resp_error f = auth_err_from_raw f.error_code

unfoldable pub auth_resp_is_ok : AuthResp → Bool
auth_resp_is_ok f = f.status == status_ok
