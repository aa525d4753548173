-- ===== src/Wire/Frames/UdpSession/Open.antt =====
-- UDP_SESSION_OPEN of crates/mq-wire/src/frames.rs: what is written is read back.
use mqproxy.Prelude.{
  ℕ, ◌/◌, ◌%◌, ◌^◌, ◌≤◌, ◌≡◌, refl, List, [], ◌∷◌, ◌++◌, ok, arith, length, All, IsByte, IsU16,
  IsU32, append_assoc, >>=-eq-ok, lt→ltb, ok_or,
}
use mqproxy.Wire.Varint.{max_value}
use mqproxy.Wire.Varint.Bytes
use mqproxy.Wire.Varint.Bytes.{len_bounds}
use mqproxy.Wire.Frames.Codec.{Codec, Holds, decode-encode, reencode}
use mqproxy.Wire.Frames.Codes.{
  max_frame, addr_type_as_u8, addr_type_from_raw, addr_type_from_raw-as_u8, DecodeError,
}
use mqproxy.Wire.Frames.Cursor.Laws.{
  string_bytes, short_string, varint_at, string_at, finish_at, u8_at, u16_at, port_value,
}
use mqproxy.Wire.Frames.CursorMut.Items.{
  Item, IsFit, length-wire, padded, number, raw, text, write, wire,
}
use mqproxy.Wire.Frames.CursorMut.Items
use mqproxy.Wire.Frames.Cursor.Steps.{
  start, varint_then, string_then, finish_then, u8_then, u16_then,
}
use mqproxy.Wire.Frames.ConnectTcp.{port_bytes}
use mqproxy.Wire.Frames.UdpSession.{UdpSessionOpen, encode_open, decode_open, try_u32}

-- The fields that the frame is written from.
abbrev pub udp_open_items : UdpSessionOpen → List Item
udp_open_items f =
    number f.session_id
    ∷ number f.flags
    ∷ raw (addr_type_as_u8 f.address_type ∷ [])
    ∷ text f.host 255
    ∷ raw (port_bytes f.port)
    ∷ number f.idle_timeout_ms
    ∷ []

pub encode_open-write :
    (f : UdpSessionOpen) (out : List ℕ)
    → IsU32 f.session_id × IsU16 f.port
    → encode_open f out ≡ write (Items.at [] out) (udp_open_items f)
unfolding encode_open
encode_open-write f out s = refl

-- Whatever padding a peer adds, and whatever follows the frame, its fields are read back, and its
-- length with the padding.
pub decode_open-padded :
    (f : UdpSessionOpen) (pad rest : List ℕ)
    → IsU32 f.session_id × IsU16 f.port
    → All IsFit (udp_open_items f)
    → length pad ≤ max_value
    → decode_open (padded (udp_open_items f) pad ++ rest)
      ≡ ok (f, length (padded (udp_open_items f) pad))
unfolding decode_open
decode_open-padded f pad rest s v h =
    let a : List ℕ = Bytes.bytes f.session_id in
    let b : List ℕ = Bytes.bytes f.flags in
    let c : List ℕ = addr_type_as_u8 f.address_type ∷ [] in
    let d : List ℕ = string_bytes f.host in
    let k : List ℕ = port_bytes f.port in
    let g : List ℕ = Bytes.bytes f.idle_timeout_ms in
    let e = Bytes.bytes (length pad) ++ pad in
    simp
      (
        append_assoc (Bytes.bytes f.session_id),
        append_assoc (Bytes.bytes f.flags),
        append_assoc (string_bytes f.host),
        append_assoc (Bytes.bytes f.idle_timeout_ms),
      )
      (rw
        (
          varint_at [] (b ++ (c ++ (d ++ (k ++ (g ++ (e ++ rest)))))) f.session_id v.0,
          lt→ltb f.session_id (2 ^ 32) s.0,
          varint_at a (c ++ (d ++ (k ++ (g ++ (e ++ rest))))) f.flags v.1.0,
          u8_at (a ++ b) (d ++ (k ++ (g ++ (e ++ rest)))) (addr_type_as_u8 f.address_type),
          addr_type_from_raw-as_u8 f.address_type,
          string_at ((a ++ b) ++ c) f.host (k ++ (g ++ (e ++ rest))) 255 v.1.1.1.0.0 (omega arith),
          u16_at (((a ++ b) ++ c) ++ d) (g ++ (e ++ rest)) (f.port / 256 % 256) (f.port % 256),
          port_value f.port s.1,
          varint_at ((((a ++ b) ++ c) ++ d) ++ k) (e ++ rest) f.idle_timeout_ms v.1.1.1.1.1.0,
          finish_at (((((a ++ b) ++ c) ++ d) ++ k) ++ g) pad rest h,
        )
        (simp append_assoc))

pub decode_open_ok :
    (buf : List ℕ) (f : UdpSessionOpen) (n : ℕ)
    → All IsByte buf
    → decode_open buf ≡ ok (f, n)
    → (IsU32 f.session_id × IsU16 f.port)
      × All IsFit (udp_open_items f)
      × (length (wire (udp_open_items f)) ≤ n)
      × (n ≤ length buf)
unfolding decode_open
decode_open_ok buf f n octets e = varint_then buf octets _ (start buf) e λ session_id c1 r1 h1 e1.
    let (session_id', in_range, k1) = >>=-eq-ok (try_u32 session_id) _ e1 in
    varint_then buf octets _ r1 k1 λ flags c2 r2 h2 e2.
      u8_then buf octets _ r2 e2 λ code c3 r3 h3 e3.
        let (address_type, known, k3) =
          >>=-eq-ok (ok_or (addr_type_from_raw code) DecodeError.invalid) _ e3 in
        string_then buf octets 255 _ r3 k3 λ host c4 r4 h4 o4 e4.
          u16_then buf octets _ r4 e4 λ port c5 r5 h5 e5.
            varint_then buf octets _ r5 e5 λ idle_timeout_ms c6 r6 h6 e6.
              finish_then buf octets _ r6 e6
                λ n' more inside done. ground (arith, length-wire (udp_open_items f))

pub udp_open_small :
    (f : UdpSessionOpen)
    → All IsFit (udp_open_items f)
    → length (wire (udp_open_items f)) ≤ max_frame
udp_open_small f v = omega (
  arith,
  length-wire (udp_open_items f),
  len_bounds f.session_id,
  len_bounds f.flags,
  short_string f.host,
  len_bounds f.idle_timeout_ms,
)

abbrev pub udp_open_codec : Codec UdpSessionOpen
udp_open_codec = record {
  items = udp_open_items;
  IsSound = λ f. IsU32 f.session_id × IsU16 f.port;
  encode = encode_open;
  decode = decode_open;
  encode-write = encode_open-write;
  decode-padded = decode_open-padded;
  decode_ok = decode_open_ok;
  small = udp_open_small;
}

-- What `encode` of a UDP_SESSION_OPEN of a u32 session id and a u16 port wrote has its fields in range, holds exactly their bytes with
-- no padding, leaves the buffer behind it unchanged, and decodes to the same frame and length.
pub decode_open-encode_open :
    (f : UdpSessionOpen) (out out' : List ℕ) (n : ℕ)
    → IsU32 f.session_id × IsU16 f.port
    → encode_open f out ≡ ok (out', n)
    → All IsFit (udp_open_items f)
      × Holds (wire (udp_open_items f)) out out' n
      × (decode_open out' ≡ ok (f, n))
decode_open-encode_open f out out' n s e = decode-encode udp_open_codec f out out' n s e

-- A UDP_SESSION_OPEN that was decoded from any bytes can be encoded into a buffer of 512
-- bytes, in no more bytes than were read, and decodes to the same frame.
pub reencode_udp_open :
    (buf : List ℕ) (f : UdpSessionOpen) (n : ℕ) (out : List ℕ)
    → All IsByte buf
    → decode_open buf ≡ ok (f, n)
    → max_frame ≤ length out
    → (out' : List ℕ) × (m : ℕ) × (encode_open f out ≡ ok (out', m))
      × (decode_open out' ≡ ok (f, m))
      × (m ≤ n)
      × (n ≤ length buf)
reencode_udp_open buf f n out = reencode udp_open_codec buf f n out
