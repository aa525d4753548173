-- ===== src/Wire/Frames/Kinds.antt =====
-- The six frames of crates/mq-wire/src/frames.rs as one family, each with its encoder and decoder.
use mqproxy.Prelude.{ℕ, ◌≤◌, ◌<◌, ◌≡◌, ◌↔◌, List, ok, err, length, All, IsByte, arith}
use native.Mathlib.Decide.{dec_lt}
use mqproxy.Wire.Frames.Codes.{EncodeError, max_frame}
use mqproxy.Wire.Frames.CursorMut.Items.{IsFit, wire}
use mqproxy.Wire.Frames.Codec.{Codec, Holds, decode-encode, reencode, encode_short, encode_fit}
use mqproxy.Wire.Frames.Auth.{AuthReq, AuthResp}
use mqproxy.Wire.Frames.ConnectTcp.{ConnectTcpReq, ConnectTcpResp}
use mqproxy.Wire.Frames.UdpSession.{UdpSessionOpen, UdpSessionResp}
use mqproxy.Wire.Frames.Auth.Request.{auth_req_codec}
use mqproxy.Wire.Frames.Auth.Response.{auth_resp_codec}
use mqproxy.Wire.Frames.ConnectTcp.Request.{tcp_req_codec}
use mqproxy.Wire.Frames.ConnectTcp.Response.{tcp_resp_codec}
use mqproxy.Wire.Frames.UdpSession.Open.{udp_open_codec}
use mqproxy.Wire.Frames.UdpSession.Response.{udp_resp_codec}

pub data FrameKind : Type 0 where
  auth_req : FrameKind
  auth_resp : FrameKind
  tcp_req : FrameKind
  tcp_resp : FrameKind
  udp_open : FrameKind
  udp_resp : FrameKind

abbrev pub Frame : FrameKind → Type 0
Frame auth_req = AuthReq
Frame auth_resp = AuthResp
Frame tcp_req = ConnectTcpReq
Frame tcp_resp = ConnectTcpResp
Frame udp_open = UdpSessionOpen
Frame udp_resp = UdpSessionResp

abbrev pub codec : (k : FrameKind) → Codec (Frame k)
codec auth_req = auth_req_codec
codec auth_resp = auth_resp_codec
codec tcp_req = tcp_req_codec
codec tcp_resp = tcp_resp_codec
codec udp_open = udp_open_codec
codec udp_resp = udp_resp_codec

-- What encoding a frame of any of the six kinds wrote, for a frame that its type allows (ports are u16, session
-- ids u32, and a UDP_SESSION_RESP has a code that fits its status), has its fields in range, holds exactly
-- their bytes with no padding, leaves the buffer behind it unchanged, and decodes to the same frame and length.
pub decode_frame-encode_frame :
    (k : FrameKind) (f : Frame k) (out out' : List ℕ) (n : ℕ)
    → (codec k).IsSound f
    → (codec k).encode f out ≡ ok (out', n)
    → All IsFit ((codec k).items f)
      × Holds (wire ((codec k).items f)) out out' n
      × ((codec k).decode out' ≡ ok (f, n))
decode_frame-encode_frame k f out out' n s e = decode-encode (codec k) f out out' n s e

-- A frame of any of the six kinds that was decoded from any bytes can be encoded into a buffer of at least
-- 512 bytes, in no more bytes than were read, which are within the buffer, and decodes to the same frame.
pub reencode_frame :
    (k : FrameKind) (buf : List ℕ) (f : Frame k) (n : ℕ) (out : List ℕ)
    → All IsByte buf
    → (codec k).decode buf ≡ ok (f, n)
    → max_frame ≤ length out
    → (out' : List ℕ) × (m : ℕ) × ((codec k).encode f out ≡ ok (out', m))
      × ((codec k).decode out' ≡ ok (f, m))
      × (m ≤ n)
      × (n ≤ length buf)
reencode_frame k buf f n out = reencode (codec k) buf f n out

-- A frame of any of the six kinds that its type allows and whose fields are in range needs at most 512 bytes.
-- Encoding it is refused as too short exactly when the buffer has fewer bytes than its fields take, and
-- else writes exactly that many.
pub encode_frame_exact :
    (k : FrameKind) (f : Frame k) (out : List ℕ)
    → (codec k).IsSound f
    → All IsFit ((codec k).items f)
    → (length (wire ((codec k).items f)) ≤ max_frame)
      × (((codec k).encode f out ≡ err EncodeError.short)
          ↔ (length out < length (wire ((codec k).items f))))
      × (length (wire ((codec k).items f)) ≤ length out
          → (out' : List ℕ) × ((codec k).encode f out
              ≡ ok (out', length (wire ((codec k).items f)))))
encode_frame_exact k f out s h = (
  (codec k).small f h,
  (
    λ e. elim (dec_lt (length out) (length (wire ((codec k).items f)))) [
      | yes lt ↦ lt
      | no ge ↦ let r = encode_fit (codec k) f out s h (omega arith) in cc
    ],
    encode_short (codec k) f out s h,
  ),
  λ fits. (_, encode_fit (codec k) f out s h fits),
)
