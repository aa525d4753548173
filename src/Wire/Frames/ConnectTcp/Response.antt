-- ===== src/Wire/Frames/ConnectTcp/Response.antt =====
-- CONNECT_TCP_RESPONSE of crates/mq-wire/src/frames.rs: what is written is read back.
use mqproxy.Prelude.{
  ℕ, ◌≤◌, ◌≡◌, refl, List, [], ◌∷◌, ◌++◌, ok, arith, length, All, IsByte, append_assoc,
}
use mqproxy.Wire.Varint.{max_value}
use mqproxy.Wire.Varint.Bytes
use mqproxy.Wire.Varint.Bytes.{len_bounds}
use mqproxy.Wire.Frames.Codec.{Codec, Holds, decode-encode, reencode}
use mqproxy.Wire.Frames.Codes.{max_frame}
use mqproxy.Wire.Frames.Cursor.Laws.{
  string_bytes, short_string, varint_at, string_at, finish_at, u8_at,
}
use mqproxy.Wire.Frames.CursorMut.Items.{
  Item, IsFit, length-wire, padded, number, raw, text, write, wire,
}
use mqproxy.Wire.Frames.CursorMut.Items
use mqproxy.Wire.Frames.Cursor.Steps.{start, varint_then, string_then, finish_then, u8_then}
use mqproxy.Wire.Frames.ConnectTcp.{ConnectTcpResp, encode_tcp_resp, decode_tcp_resp}

-- The fields that the frame is written from.
abbrev pub tcp_resp_items : ConnectTcpResp → List Item
tcp_resp_items f = raw (f.status ∷ []) ∷ number f.error_code ∷ text f.message 255 ∷ []

pub encode_tcp_resp-write :
    (f : ConnectTcpResp) (out : List ℕ)
    → Unit {0}
    → encode_tcp_resp f out ≡ write (Items.at [] out) (tcp_resp_items f)
unfolding encode_tcp_resp
encode_tcp_resp-write f out s = refl

-- Whatever padding a peer adds, and whatever follows the frame, its fields are read back, and its
-- length with the padding.
pub decode_tcp_resp-padded :
    (f : ConnectTcpResp) (pad rest : List ℕ)
    → Unit {0}
    → All IsFit (tcp_resp_items f)
    → length pad ≤ max_value
    → decode_tcp_resp (padded (tcp_resp_items f) pad ++ rest)
      ≡ ok (f, length (padded (tcp_resp_items f) pad))
unfolding decode_tcp_resp
decode_tcp_resp-padded f pad rest s v h =
    let a : List ℕ = f.status ∷ [] in
    let b : List ℕ = Bytes.bytes f.error_code in
    let c : List ℕ = string_bytes f.message in
    let e = Bytes.bytes (length pad) ++ pad in
    simp (append_assoc (Bytes.bytes f.error_code), append_assoc (string_bytes f.message))
      (rw
        (
          u8_at [] (b ++ (c ++ (e ++ rest))) f.status,
          varint_at a (c ++ (e ++ rest)) f.error_code v.1.0,
          string_at (a ++ b) f.message (e ++ rest) 255 v.1.1.0.0 (omega arith),
          finish_at ((a ++ b) ++ c) pad rest h,
        )
        (simp append_assoc))

pub decode_tcp_resp_ok :
    (buf : List ℕ) (f : ConnectTcpResp) (n : ℕ)
    → All IsByte buf
    → decode_tcp_resp buf ≡ ok (f, n)
    → Unit {0}
      × All IsFit (tcp_resp_items f)
      × (length (wire (tcp_resp_items f)) ≤ n)
      × (n ≤ length buf)
unfolding decode_tcp_resp
decode_tcp_resp_ok buf f n octets e = u8_then buf octets _ (start buf) e λ status c1 r1 h1 e1.
    varint_then buf octets _ r1 e1 λ error_code c2 r2 h2 e2.
      string_then buf octets 255 _ r2 e2 λ message c3 r3 h3 o3 e3.
        finish_then buf octets _ r3 e3
          λ n' more inside done. ground (arith, length-wire (tcp_resp_items f))

pub tcp_resp_small :
    (f : ConnectTcpResp)
    → All IsFit (tcp_resp_items f)
    → length (wire (tcp_resp_items f)) ≤ max_frame
tcp_resp_small f v =
    omega (arith, length-wire (tcp_resp_items f), len_bounds f.error_code, short_string f.message)

abbrev pub tcp_resp_codec : Codec ConnectTcpResp
tcp_resp_codec = record {
  items = tcp_resp_items;
  IsSound = λ f. Unit {0};
  encode = encode_tcp_resp;
  decode = decode_tcp_resp;
  encode-write = encode_tcp_resp-write;
  decode-padded = decode_tcp_resp-padded;
  decode_ok = decode_tcp_resp_ok;
  small = tcp_resp_small;
}

-- What `encode` of a CONNECT_TCP_RESPONSE wrote has its fields in range, holds exactly their bytes with
-- no padding, leaves the buffer behind it unchanged, and decodes to the same frame and length.
pub decode_tcp_resp-encode_tcp_resp :
    (f : ConnectTcpResp) (out out' : List ℕ) (n : ℕ)
    → encode_tcp_resp f out ≡ ok (out', n)
    → All IsFit (tcp_resp_items f)
      × Holds (wire (tcp_resp_items f)) out out' n
      × (decode_tcp_resp out' ≡ ok (f, n))
decode_tcp_resp-encode_tcp_resp f out out' n e = decode-encode tcp_resp_codec f out out' n tt e

-- A CONNECT_TCP_RESPONSE that was decoded from any bytes can be encoded into a buffer of 512
-- bytes, in no more bytes than were read, and decodes to the same frame.
pub reencode_tcp_resp :
    (buf : List ℕ) (f : ConnectTcpResp) (n : ℕ) (out : List ℕ)
    → All IsByte buf
    → decode_tcp_resp buf ≡ ok (f, n)
    → max_frame ≤ length out
    → (out' : List ℕ) × (m : ℕ) × (encode_tcp_resp f out ≡ ok (out', m))
      × (decode_tcp_resp out' ≡ ok (f, m))
      × (m ≤ n)
      × (n ≤ length buf)
reencode_tcp_resp buf f n out = reencode tcp_resp_codec buf f n out
