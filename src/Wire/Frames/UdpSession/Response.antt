-- ===== src/Wire/Frames/UdpSession/Response.antt =====
-- UDP_SESSION_RESP of crates/mq-wire/src/frames.rs: what is written is read back.
use mqproxy.Prelude.{
  ℕ, ◌≤◌, ◌≡◌, refl, true, List, [], ◌∷◌, ◌++◌, ok, err, arith, length, All, IsByte, append_assoc,
  if◌then◌else◌, Bool-cases, inl, inr,
}
use mqproxy.Wire.Varint.{max_value}
use mqproxy.Wire.Varint.Bytes
use mqproxy.Wire.Varint.Bytes.{len_bounds}
use mqproxy.Wire.Frames.Codec.{Codec, Holds, decode-encode, reencode}
use mqproxy.Wire.Frames.Codes.{max_frame, udp_status_code_valid, DecodeError}
use mqproxy.Wire.Frames.Cursor.Laws.{
  string_bytes, short_string, varint_at, string_at, finish_at, u8_at,
}
use mqproxy.Wire.Frames.CursorMut.Items.{
  Item, IsFit, length-wire, padded, number, raw, text, write, wire,
}
use mqproxy.Wire.Frames.CursorMut.Items
use mqproxy.Wire.Frames.Cursor.Steps.{start, varint_then, string_then, finish_then, u8_then}
use mqproxy.Wire.Frames.Cursor
use mqproxy.Wire.Frames.UdpSession.{
  UdpSessionResp, encode_udp_resp, decode_udp_resp, read_udp_resp_rest,
}

-- The fields that the frame is written from.
abbrev pub udp_resp_items : UdpSessionResp → List Item
udp_resp_items f =
    raw (f.status ∷ []) ∷ number f.error_code ∷ text f.message 255 ∷ number f.idle_timeout_ms ∷ []

pub encode_udp_resp-write :
    (f : UdpSessionResp) (out : List ℕ)
    → udp_status_code_valid f.status f.error_code ≡ true
    → encode_udp_resp f out ≡ write (Items.at [] out) (udp_resp_items f)
unfolding encode_udp_resp
encode_udp_resp-write f out s = rw s refl

-- Whatever padding a peer adds, and whatever follows the frame, its fields are read back, and its
-- length with the padding.
pub decode_udp_resp-padded :
    (f : UdpSessionResp) (pad rest : List ℕ)
    → udp_status_code_valid f.status f.error_code ≡ true
    → All IsFit (udp_resp_items f)
    → length pad ≤ max_value
    → decode_udp_resp (padded (udp_resp_items f) pad ++ rest)
      ≡ ok (f, length (padded (udp_resp_items f) pad))
unfolding decode_udp_resp
decode_udp_resp-padded f pad rest s v h =
    let a : List ℕ = f.status ∷ [] in
    let b : List ℕ = Bytes.bytes f.error_code in
    let c : List ℕ = string_bytes f.message in
    let d : List ℕ = Bytes.bytes f.idle_timeout_ms in
    let e = Bytes.bytes (length pad) ++ pad in
    simp
      (
        append_assoc (Bytes.bytes f.error_code),
        append_assoc (string_bytes f.message),
        append_assoc (Bytes.bytes f.idle_timeout_ms),
      )
      (rw
        (
          u8_at [] (b ++ (c ++ (d ++ (e ++ rest)))) f.status,
          varint_at a (c ++ (d ++ (e ++ rest))) f.error_code v.1.0,
          s,
          string_at (a ++ b) f.message (d ++ (e ++ rest)) 255 v.1.1.0.0 (omega arith),
          varint_at ((a ++ b) ++ c) (e ++ rest) f.idle_timeout_ms v.1.1.1.0,
          finish_at (((a ++ b) ++ c) ++ d) pad rest h,
        )
        (simp append_assoc))

checked :
    (status error_code : ℕ) (r : Cursor.Cursor) (f : UdpSessionResp) (n : ℕ)
    → (if udp_status_code_valid status error_code
        then read_udp_resp_rest status error_code r
        else err DecodeError.invalid)
      ≡ ok (f, n)
    → (udp_status_code_valid status error_code ≡ true)
      × (read_udp_resp_rest status error_code r ≡ ok (f, n))
checked status error_code r f n e = elim (Bool-cases (udp_status_code_valid status error_code)) [
  | inl valid ↦ (valid, rw valid at e)
  | inr bad ↦ absurd (cc (rw bad at e))
]

pub decode_udp_resp_ok :
    (buf : List ℕ) (f : UdpSessionResp) (n : ℕ)
    → All IsByte buf
    → decode_udp_resp buf ≡ ok (f, n)
    → udp_status_code_valid f.status f.error_code ≡ true
      × All IsFit (udp_resp_items f)
      × (length (wire (udp_resp_items f)) ≤ n)
      × (n ≤ length buf)
unfolding decode_udp_resp
decode_udp_resp_ok buf f n octets e = u8_then buf octets _ (start buf) e λ status c1 r1 h1 e1.
    varint_then buf octets _ r1 e1 λ error_code c2 r2 h2 e2.
      let (valid, k2) = checked status error_code c2 f n e2 in
      string_then buf octets 255 _ r2 k2 λ message c3 r3 h3 o3 e3.
        varint_then buf octets _ r3 e3 λ idle_timeout_ms c4 r4 h4 e4.
          finish_then buf octets _ r4 e4
            λ n' more inside done. ground (arith, length-wire (udp_resp_items f))

pub udp_resp_small :
    (f : UdpSessionResp)
    → All IsFit (udp_resp_items f)
    → length (wire (udp_resp_items f)) ≤ max_frame
udp_resp_small f v = omega (
  arith,
  length-wire (udp_resp_items f),
  len_bounds f.error_code,
  short_string f.message,
  len_bounds f.idle_timeout_ms,
)

abbrev pub udp_resp_codec : Codec UdpSessionResp
udp_resp_codec = record {
  items = udp_resp_items;
  IsSound = λ f. udp_status_code_valid f.status f.error_code ≡ true;
  encode = encode_udp_resp;
  decode = decode_udp_resp;
  encode-write = encode_udp_resp-write;
  decode-padded = decode_udp_resp-padded;
  decode_ok = decode_udp_resp_ok;
  small = udp_resp_small;
}

valid_of :
    (f : UdpSessionResp) (out : List ℕ) (p : List ℕ × ℕ)
    → encode_udp_resp f out ≡ ok p
    → udp_status_code_valid f.status f.error_code ≡ true
unfolding encode_udp_resp
valid_of f out p e = ground arith

-- What `encode` of a UDP_SESSION_RESP wrote has its fields in range, holds exactly their bytes with
-- no padding, leaves the buffer behind it unchanged, and decodes to the same frame and length.
pub decode_udp_resp-encode_udp_resp :
    (f : UdpSessionResp) (out out' : List ℕ) (n : ℕ)
    → encode_udp_resp f out ≡ ok (out', n)
    → All IsFit (udp_resp_items f)
      × Holds (wire (udp_resp_items f)) out out' n
      × (decode_udp_resp out' ≡ ok (f, n))
decode_udp_resp-encode_udp_resp f out out' n e =
    decode-encode udp_resp_codec f out out' n (valid_of f out (out', n) e) e

-- A UDP_SESSION_RESP that was decoded from any bytes can be encoded into a buffer of 512
-- bytes, in no more bytes than were read, and decodes to the same frame.
pub reencode_udp_resp :
    (buf : List ℕ) (f : UdpSessionResp) (n : ℕ) (out : List ℕ)
    → All IsByte buf
    → decode_udp_resp buf ≡ ok (f, n)
    → max_frame ≤ length out
    → (out' : List ℕ) × (m : ℕ) × (encode_udp_resp f out ≡ ok (out', m))
      × (decode_udp_resp out' ≡ ok (f, m))
      × (m ≤ n)
      × (n ≤ length buf)
reencode_udp_resp buf f n out = reencode udp_resp_codec buf f n out
