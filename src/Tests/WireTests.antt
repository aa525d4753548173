-- ===== src/Tests/WireTests.antt =====
-- Runs of the encoders and decoders of crates/mq-wire/src.
use mqproxy.Prelude.{
  ℕ, ◌≤◌, ◌<◌, ◌≡◌, refl, List, [], ◌∷◌, ok, err, arith, length, drop, replicate, All,
  length-replicate, ◌↔◌,
}
use mqproxy.Wire.Varint
use mqproxy.Wire.Varint.{max_value, too_large, short, len}
use mqproxy.Wire.Varint.RoundTrip
use mqproxy.Wire.UdpMsg.{UdpMsgHdr, split, chunks, number_from, frags_needed}
use mqproxy.Wire.UdpMsg.Laws.{Numbered, packet_hdr, joined, split_ok}
use mqproxy.Wire.Frames.Cursor
use mqproxy.Wire.Frames.CursorMut
use mqproxy.Wire.Frames.CursorMut.Items.{IsFit, wire}
use mqproxy.Wire.Frames.Codec.{Holds}
use mqproxy.Wire.Frames.Codes.{
  EncodeError, AddrType, addr_type_as_u8, addr_type_from_raw, udp_status_code_valid, max_frame,
}
use mqproxy.Wire.Frames.Auth.{
  AuthReq, AuthResp, encode_auth_req, decode_auth_req, encode_auth_resp, decode_auth_resp,
}
use mqproxy.Wire.Frames.Kinds.{FrameKind, decode_frame-encode_frame, encode_frame_exact}
use mqproxy.Wire.Frames.Auth.Request.{auth_req_items}
use mqproxy.Wire.Frames.ConnectTcp.{
  ConnectTcpReq, ConnectTcpResp, encode_tcp_req, decode_tcp_req, encode_tcp_resp, decode_tcp_resp,
}
use mqproxy.Wire.Frames.ConnectTcp.Request.{tcp_req_items}
use mqproxy.Wire.Frames.UdpSession.{
  UdpSessionOpen, UdpSessionResp, encode_open, decode_open, encode_udp_resp, decode_udp_resp,
}

-- A value of two bytes, in a buffer of three.
varint_run : Varint.encode (0 ∷ 0 ∷ 9 ∷ []) 300 ≡ ok (65 ∷ 44 ∷ 9 ∷ [], 2)
unfolding Varint.encode Varint.len Varint.prefix Varint.mark_first
varint_run = refl

decode-encode_example :
    (Varint.decode (65 ∷ 44 ∷ 9 ∷ []) ≡ ok (300, 2))
    × (drop {A = ℕ} 2 (65 ∷ 44 ∷ 9 ∷ []) ≡ drop {A = ℕ} 2 (0 ∷ 0 ∷ 9 ∷ []))
    × (length {A = ℕ} (65 ∷ 44 ∷ 9 ∷ []) ≡ length {A = ℕ} (0 ∷ 0 ∷ 9 ∷ []))
decode-encode_example = RoundTrip.decode-encode (0 ∷ 0 ∷ 9 ∷ []) (65 ∷ 44 ∷ 9 ∷ []) 300 2 varint_run

decoded_run : Varint.decode (65 ∷ 44 ∷ 9 ∷ []) ≡ ok (300, 2)
unfolding Varint.decode Varint.shift_in
decoded_run = refl

abbrev hdr : UdpMsgHdr
hdr = record { session_id = 70000; packet_id = 300; flags = 0; frag_id = 1; frag_count = 2 }

abbrev two_frags : List (UdpMsgHdr × List ℕ)
two_frags =
    (record { session_id = 7; packet_id = 9; flags = 0; frag_id = 0; frag_count = 2 }, 1 ∷ 2 ∷ [])
    ∷ (record { session_id = 7; packet_id = 9; flags = 0; frag_id = 1; frag_count = 2 }, 3 ∷ [])
    ∷ []

split_run : split 7 9 (1 ∷ 2 ∷ 3 ∷ []) 2 ≡ ok two_frags
unfolding split chunks number_from frags_needed
split_run = refl

split_ok_example :
    (joined two_frags ≡ 1 ∷ 2 ∷ 3 ∷ [])
    × Numbered (packet_hdr 7 9 2) 2 0 two_frags
    × (1 ≤ length two_frags)
    × (length two_frags ≤ 255)
split_ok_example = split_ok 7 9 (1 ∷ 2 ∷ 3 ∷ []) 2 two_frags split_run

abbrev room : List ℕ
room = replicate 512 0

room_size : max_frame ≤ length room
room_size = omega (arith, length-replicate {A = ℕ} 512 0)

abbrev auth_req : AuthReq
auth_req = record { version = 1; client_id = 97 ∷ []; auth_token = 98 ∷ []; features = 0 }

auth_req_run :
    encode_auth_req auth_req (0 ∷ 0 ∷ 0 ∷ 0 ∷ 0 ∷ 0 ∷ 0 ∷ 0 ∷ [])
    ≡ ok ((1 ∷ 1 ∷ 97 ∷ 1 ∷ 98 ∷ 0 ∷ 0 ∷ 0 ∷ []), 7)
unfolding encode_auth_req CursorMut.varint CursorMut.string CursorMut.bytes CursorMut.finish
    Varint.encode Varint.len Varint.prefix Varint.mark_first addr_type_as_u8 udp_status_code_valid
auth_req_run = refl

auth_req_read : decode_auth_req (1 ∷ 1 ∷ 97 ∷ 1 ∷ 98 ∷ 0 ∷ 0 ∷ []) ≡ ok (auth_req, 7)
unfolding decode_auth_req Cursor.varint Cursor.string Cursor.bytes Cursor.u8 Cursor.u16
    Cursor.finish Varint.decode Varint.shift_in addr_type_from_raw udp_status_code_valid
auth_req_read = refl

abbrev auth_resp : AuthResp
auth_resp = record { status = 0; error_code = 0; server_id = 115 ∷ []; features = 1 }

auth_resp_run :
    encode_auth_resp auth_resp (0 ∷ 0 ∷ 0 ∷ 0 ∷ 0 ∷ 0 ∷ 0 ∷ [])
    ≡ ok ((0 ∷ 0 ∷ 1 ∷ 115 ∷ 1 ∷ 0 ∷ 0 ∷ []), 6)
unfolding encode_auth_resp CursorMut.varint CursorMut.string CursorMut.bytes CursorMut.finish
    Varint.encode Varint.len Varint.prefix Varint.mark_first addr_type_as_u8 udp_status_code_valid
auth_resp_run = refl

auth_resp_read : decode_auth_resp (0 ∷ 0 ∷ 1 ∷ 115 ∷ 1 ∷ 0 ∷ []) ≡ ok (auth_resp, 6)
unfolding decode_auth_resp Cursor.varint Cursor.string Cursor.bytes Cursor.u8 Cursor.u16
    Cursor.finish Varint.decode Varint.shift_in addr_type_from_raw udp_status_code_valid
auth_resp_read = refl

abbrev tcp_req : ConnectTcpReq
tcp_req = record { flags = 0; address_type = AddrType.domain; host = 104 ∷ []; port = 443 }

tcp_req_run :
    encode_tcp_req tcp_req (0 ∷ 0 ∷ 0 ∷ 0 ∷ 0 ∷ 0 ∷ 0 ∷ 0 ∷ [])
    ≡ ok ((0 ∷ 3 ∷ 1 ∷ 104 ∷ 1 ∷ 187 ∷ 0 ∷ 0 ∷ []), 7)
unfolding encode_tcp_req CursorMut.varint CursorMut.string CursorMut.bytes CursorMut.finish
    Varint.encode Varint.len Varint.prefix Varint.mark_first addr_type_as_u8 udp_status_code_valid
tcp_req_run = refl

tcp_req_read : decode_tcp_req (0 ∷ 3 ∷ 1 ∷ 104 ∷ 1 ∷ 187 ∷ 0 ∷ []) ≡ ok (tcp_req, 7)
unfolding decode_tcp_req Cursor.varint Cursor.string Cursor.bytes Cursor.u8 Cursor.u16 Cursor.finish
    Varint.decode Varint.shift_in addr_type_from_raw udp_status_code_valid
tcp_req_read = refl

abbrev tcp_resp : ConnectTcpResp
tcp_resp = record { status = 1; error_code = 3; message = 116 ∷ [] }

tcp_resp_run :
    encode_tcp_resp tcp_resp (0 ∷ 0 ∷ 0 ∷ 0 ∷ 0 ∷ 0 ∷ []) ≡ ok ((1 ∷ 3 ∷ 1 ∷ 116 ∷ 0 ∷ 0 ∷ []), 5)
unfolding encode_tcp_resp CursorMut.varint CursorMut.string CursorMut.bytes CursorMut.finish
    Varint.encode Varint.len Varint.prefix Varint.mark_first addr_type_as_u8 udp_status_code_valid
tcp_resp_run = refl

tcp_resp_read : decode_tcp_resp (1 ∷ 3 ∷ 1 ∷ 116 ∷ 0 ∷ []) ≡ ok (tcp_resp, 5)
unfolding decode_tcp_resp Cursor.varint Cursor.string Cursor.bytes Cursor.u8 Cursor.u16
    Cursor.finish Varint.decode Varint.shift_in addr_type_from_raw udp_status_code_valid
tcp_resp_read = refl

abbrev udp_open : UdpSessionOpen
udp_open = record {
  session_id = 7;
  flags = 0;
  address_type = AddrType.domain;
  host = 104 ∷ [];
  port = 53;
  idle_timeout_ms = 60;
}

udp_open_run :
    encode_open udp_open (0 ∷ 0 ∷ 0 ∷ 0 ∷ 0 ∷ 0 ∷ 0 ∷ 0 ∷ 0 ∷ 0 ∷ [])
    ≡ ok ((7 ∷ 0 ∷ 3 ∷ 1 ∷ 104 ∷ 0 ∷ 53 ∷ 60 ∷ 0 ∷ 0 ∷ []), 9)
unfolding encode_open CursorMut.varint CursorMut.string CursorMut.bytes CursorMut.finish
    Varint.encode Varint.len Varint.prefix Varint.mark_first addr_type_as_u8 udp_status_code_valid
udp_open_run = refl

udp_open_read : decode_open (7 ∷ 0 ∷ 3 ∷ 1 ∷ 104 ∷ 0 ∷ 53 ∷ 60 ∷ 0 ∷ []) ≡ ok (udp_open, 9)
unfolding decode_open Cursor.varint Cursor.string Cursor.bytes Cursor.u8 Cursor.u16 Cursor.finish
    Varint.decode Varint.shift_in addr_type_from_raw udp_status_code_valid
udp_open_read = refl

abbrev udp_resp : UdpSessionResp
udp_resp = record { status = 0; error_code = 0; message = []; idle_timeout_ms = 60 }

udp_resp_run :
    encode_udp_resp udp_resp (0 ∷ 0 ∷ 0 ∷ 0 ∷ 0 ∷ 0 ∷ []) ≡ ok ((0 ∷ 0 ∷ 0 ∷ 60 ∷ 0 ∷ 0 ∷ []), 5)
unfolding encode_udp_resp CursorMut.varint CursorMut.string CursorMut.bytes CursorMut.finish
    Varint.encode Varint.len Varint.prefix Varint.mark_first addr_type_as_u8 udp_status_code_valid
udp_resp_run = refl

udp_resp_read : decode_udp_resp (0 ∷ 0 ∷ 0 ∷ 60 ∷ 0 ∷ []) ≡ ok (udp_resp, 5)
unfolding decode_udp_resp Cursor.varint Cursor.string Cursor.bytes Cursor.u8 Cursor.u16
    Cursor.finish Varint.decode Varint.shift_in addr_type_from_raw udp_status_code_valid
udp_resp_read = refl

decode_frame-encode_frame_example :
    All IsFit (tcp_req_items tcp_req)
    × Holds
        (wire (tcp_req_items tcp_req))
        (0 ∷ 0 ∷ 0 ∷ 0 ∷ 0 ∷ 0 ∷ 0 ∷ 0 ∷ [])
        (0 ∷ 3 ∷ 1 ∷ 104 ∷ 1 ∷ 187 ∷ 0 ∷ 0 ∷ [])
        7
    × (decode_tcp_req (0 ∷ 3 ∷ 1 ∷ 104 ∷ 1 ∷ 187 ∷ 0 ∷ 0 ∷ []) ≡ ok (tcp_req, 7))
decode_frame-encode_frame_example =
    decode_frame-encode_frame FrameKind.tcp_req tcp_req (0 ∷ 0 ∷ 0 ∷ 0 ∷ 0 ∷ 0 ∷ 0 ∷ 0 ∷ [])
      (0 ∷ 3 ∷ 1 ∷ 104 ∷ 1 ∷ 187 ∷ 0 ∷ 0 ∷ []) 7 (omega arith) tcp_req_run

encode_frame_exact_example :
    (length (wire (auth_req_items auth_req)) ≤ max_frame)
    × ((encode_auth_req auth_req (0 ∷ 0 ∷ []) ≡ err EncodeError.short)
        ↔ (length {A = ℕ} (0 ∷ 0 ∷ []) < length (wire (auth_req_items auth_req))))
    × (length (wire (auth_req_items auth_req)) ≤ length {A = ℕ} (0 ∷ 0 ∷ [])
        → (out' : List ℕ) × (encode_auth_req auth_req (0 ∷ 0 ∷ [])
            ≡ ok (out', length (wire (auth_req_items auth_req)))))
encode_frame_exact_example =
    encode_frame_exact FrameKind.auth_req auth_req (0 ∷ 0 ∷ []) tt (omega arith)
