-- ===== src/Wire/Frames/Codes.antt =====
-- crates/mq-wire/src/frames.rs: the constants and the codes of the frames, with their typed
-- readings (`from_raw`) and, for addresses, the raw code (`as u8`).
use mqproxy.Prelude.{
  ℕ, Option, none, some, ◌==◌, if◌then◌else◌, Bool, ◌≡◌, refl, arith, ◌&&◌, ◌||◌, leb,
}

-- The buffer size that is meant for every frame.
abbrev pub max_frame : ℕ
max_frame = 512

abbrev pub status_ok : ℕ
status_ok = 0

abbrev pub status_error : ℕ
status_error = 1

abbrev pub max_client_id : ℕ
max_client_id = 63

abbrev pub max_auth_token : ℕ
max_auth_token = 255

abbrev pub max_server_id : ℕ
max_server_id = 63

abbrev pub max_host : ℕ
max_host = 255

abbrev pub max_message : ℕ
max_message = 255

pub data AuthErr : Type 0 where
  ok failed token_expired policy_denied : AuthErr

unfoldable pub auth_err_from_raw : ℕ → Option AuthErr
auth_err_from_raw v =
    if v == 0
    then some AuthErr.ok
    else if v == 1
    then some AuthErr.failed
    else if v == 2
    then some AuthErr.token_expired
    else if v == 3
    then some AuthErr.policy_denied
    else none

pub data TcpErr : Type 0 where
  ok dns_failed conn_refused timeout policy_denied : TcpErr

unfoldable pub tcp_err_from_raw : ℕ → Option TcpErr
tcp_err_from_raw v =
    if v == 0
    then some TcpErr.ok
    else if v == 1
    then some TcpErr.dns_failed
    else if v == 2
    then some TcpErr.conn_refused
    else if v == 3
    then some TcpErr.timeout
    else if v == 4
    then some TcpErr.policy_denied
    else none

-- Code 5, "closed", has no variant.
pub data UdpErr : Type 0 where
  dns_failed socket_failed policy_denied session_limit : UdpErr

unfoldable pub udp_err_from_raw : ℕ → Option UdpErr
udp_err_from_raw v =
    if v == 1
    then some UdpErr.dns_failed
    else if v == 2
    then some UdpErr.socket_failed
    else if v == 3
    then some UdpErr.policy_denied
    else if v == 4
    then some UdpErr.session_limit
    else none

pub data AddrType : Type 0 where
  ipv4 domain ipv6 : AddrType

-- `address_type as u8`.
unfoldable pub addr_type_as_u8 : AddrType → ℕ
addr_type_as_u8 AddrType.ipv4 = 0x01
addr_type_as_u8 AddrType.domain = 0x03
addr_type_as_u8 AddrType.ipv6 = 0x04

unfoldable pub addr_type_from_raw : ℕ → Option AddrType
addr_type_from_raw v =
    if v == 0x01
    then some AddrType.ipv4
    else if v == 0x03
    then some AddrType.domain
    else if v == 0x04
    then some AddrType.ipv6
    else none

pub addr_type_from_raw-as_u8 : (a : AddrType) → addr_type_from_raw (addr_type_as_u8 a) ≡ some a
unfolding addr_type_from_raw addr_type_as_u8
addr_type_from_raw-as_u8 AddrType.ipv4 = refl
addr_type_from_raw-as_u8 AddrType.domain = refl
addr_type_from_raw-as_u8 AddrType.ipv6 = refl

pub addr_type_as_u8-from_raw :
    (v : ℕ) (a : AddrType) → addr_type_from_raw v ≡ some a → addr_type_as_u8 a ≡ v
unfolding addr_type_from_raw addr_type_as_u8
addr_type_as_u8-from_raw v a h = ground arith

pub data DecodeError : Type 0 where
  short bad_value invalid : DecodeError

pub data EncodeError : Type 0 where
  short too_long bad_value : EncodeError

-- `udp_status_code_valid`: OK with code 0, ERROR with a code from 1 to 4.
unfoldable pub udp_status_code_valid : ℕ → ℕ → Bool
udp_status_code_valid status error_code =
    (status == status_ok && error_code == 0)
    || (status == status_error && leb 1 error_code && leb error_code 4)
