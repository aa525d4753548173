-- ===== src/Wire/Frames/ConnectTcp/Request.antt =====
-- CONNECT_TCP_REQUEST of crates/mq-wire/src/frames.rs: what is written is read back.
use mqproxy.Prelude.{
  ℕ, ◌/◌, ◌%◌, ◌≤◌, ◌≡◌, refl, List, [], ◌∷◌, ◌++◌, ok, arith, length, All, IsByte, IsU16,
  append_assoc, >>=-eq-ok, ok_or,
}
use mqproxy.Wire.Varint.{max_value}
use mqproxy.Wire.Varint.Bytes
use mqproxy.Wire.Varint.Bytes.{len_bounds}
use mqproxy.Wire.Frames.Codec.{Codec, Holds, decode-encode, reencode}
use mqproxy.Wire.Frames.Codes.{
  max_frame, addr_type_as_u8, addr_type_from_raw, addr_type_from_raw-as_u8, DecodeError,
}
use mqproxy.Wire.Frames.Cursor.Laws.{
  string_bytes, short_string, varint_at, string_at, finish_at, u8_at, u16_at, port_value,
}
use mqproxy.Wire.Frames.CursorMut.Items.{
  Item, IsFit, length-wire, padded, number, raw, text, write, wire,
}
use mqproxy.Wire.Frames.CursorMut.Items
use mqproxy.Wire.Frames.Cursor.Steps.{
  start, varint_then, string_then, finish_then, u8_then, u16_then,
}
use mqproxy.Wire.Frames.ConnectTcp.{ConnectTcpReq, encode_tcp_req, decode_tcp_req, port_bytes}

-- The fields that the frame is written from.
abbrev pub tcp_req_items : ConnectTcpReq → List Item
tcp_req_items f =
    number f.flags
    ∷ raw (addr_type_as_u8 f.address_type ∷ [])
    ∷ text f.host 255
    ∷ raw (port_bytes f.port)
    ∷ []

pub encode_tcp_req-write :
    (f : ConnectTcpReq) (out : List ℕ)
    → IsU16 f.port
    → encode_tcp_req f out ≡ write (Items.at [] out) (tcp_req_items f)
unfolding encode_tcp_req
encode_tcp_req-write f out s = refl

-- Whatever padding a peer adds, and whatever follows the frame, its fields are read back, and its
-- length with the padding.
pub decode_tcp_req-padded :
    (f : ConnectTcpReq) (pad rest : List ℕ)
    → IsU16 f.port
    → All IsFit (tcp_req_items f)
    → length pad ≤ max_value
    → decode_tcp_req (padded (tcp_req_items f) pad ++ rest)
      ≡ ok (f, length (padded (tcp_req_items f) pad))
unfolding decode_tcp_req
decode_tcp_req-padded f pad rest s v h =
    let a : List ℕ = Bytes.bytes f.flags in
    let b : List ℕ = addr_type_as_u8 f.address_type ∷ [] in
    let c : List ℕ = string_bytes f.host in
    let d : List ℕ = port_bytes f.port in
    let e = Bytes.bytes (length pad) ++ pad in
    simp (append_assoc (Bytes.bytes f.flags), append_assoc (string_bytes f.host))
      (rw
        (
          varint_at [] (b ++ (c ++ (d ++ (e ++ rest)))) f.flags v.0,
          u8_at a (c ++ (d ++ (e ++ rest))) (addr_type_as_u8 f.address_type),
          addr_type_from_raw-as_u8 f.address_type,
          string_at (a ++ b) f.host (d ++ (e ++ rest)) 255 v.1.1.0.0 (omega arith),
          u16_at ((a ++ b) ++ c) (e ++ rest) (f.port / 256 % 256) (f.port % 256),
          port_value f.port s,
          finish_at (((a ++ b) ++ c) ++ d) pad rest h,
        )
        (simp append_assoc))

pub decode_tcp_req_ok :
    (buf : List ℕ) (f : ConnectTcpReq) (n : ℕ)
    → All IsByte buf
    → decode_tcp_req buf ≡ ok (f, n)
    → IsU16 f.port
      × All IsFit (tcp_req_items f)
      × (length (wire (tcp_req_items f)) ≤ n)
      × (n ≤ length buf)
unfolding decode_tcp_req
decode_tcp_req_ok buf f n octets e = varint_then buf octets _ (start buf) e λ flags c1 r1 h1 e1.
    u8_then buf octets _ r1 e1 λ code c2 r2 h2 e2.
      let (address_type, known, k2) =
        >>=-eq-ok (ok_or (addr_type_from_raw code) DecodeError.bad_value) _ e2 in
      string_then buf octets 255 _ r2 k2 λ host c3 r3 h3 o3 e3.
        u16_then buf octets _ r3 e3 λ port c4 r4 h4 e4.
          finish_then buf octets _ r4 e4
            λ n' more inside done. ground (arith, length-wire (tcp_req_items f))

pub tcp_req_small :
    (f : ConnectTcpReq) → All IsFit (tcp_req_items f) → length (wire (tcp_req_items f)) ≤ max_frame
tcp_req_small f v =
    omega (arith, length-wire (tcp_req_items f), len_bounds f.flags, short_string f.host)

abbrev pub tcp_req_codec : Codec ConnectTcpReq
tcp_req_codec = record {
  items = tcp_req_items;
  IsSound = λ f. IsU16 f.port;
  encode = encode_tcp_req;
  decode = decode_tcp_req;
  encode-write = encode_tcp_req-write;
  decode-padded = decode_tcp_req-padded;
  decode_ok = decode_tcp_req_ok;
  small = tcp_req_small;
}

-- What `encode` of a CONNECT_TCP_REQUEST with a u16 port wrote has its fields in range, holds exactly their bytes with
-- no padding, leaves the buffer behind it unchanged, and decodes to the same frame and length.
pub decode_tcp_req-encode_tcp_req :
    (f : ConnectTcpReq) (out out' : List ℕ) (n : ℕ)
    → IsU16 f.port
    → encode_tcp_req f out ≡ ok (out', n)
    → All IsFit (tcp_req_items f)
      × Holds (wire (tcp_req_items f)) out out' n
      × (decode_tcp_req out' ≡ ok (f, n))
decode_tcp_req-encode_tcp_req f out out' n s e = decode-encode tcp_req_codec f out out' n s e

-- A CONNECT_TCP_REQUEST that was decoded from any bytes can be encoded into a buffer of 512
-- bytes, in no more bytes than were read, and decodes to the same frame.
pub reencode_tcp_req :
    (buf : List ℕ) (f : ConnectTcpReq) (n : ℕ) (out : List ℕ)
    → All IsByte buf
    → decode_tcp_req buf ≡ ok (f, n)
    → max_frame ≤ length out
    → (out' : List ℕ) × (m : ℕ) × (encode_tcp_req f out ≡ ok (out', m))
      × (decode_tcp_req out' ≡ ok (f, m))
      × (m ≤ n)
      × (n ≤ length buf)
reencode_tcp_req buf f n out = reencode tcp_req_codec buf f n out
