-- ===== src/Wire/Frames/Auth/Request.antt =====
-- AUTH_REQUEST of crates/mq-wire/src/frames.rs: what is written is read back.
use mqproxy.Prelude.{
  ℕ, ◌≤◌, ◌≡◌, refl, List, [], ◌∷◌, ◌++◌, ok, arith, length, All, IsByte, append_assoc,
}
use mqproxy.Wire.Varint.{max_value}
use mqproxy.Wire.Varint.Bytes
use mqproxy.Wire.Varint.Bytes.{len_bounds}
use mqproxy.Wire.Frames.Codec.{Codec, Holds, decode-encode, reencode}
use mqproxy.Wire.Frames.Codes.{max_frame}
use mqproxy.Wire.Frames.Cursor.Laws.{
  string_bytes, brief_string, short_string, varint_at, string_at, finish_at,
}
use mqproxy.Wire.Frames.CursorMut.Items.{
  Item, IsFit, length-wire, padded, padded-nil, number, raw, text, write, wire,
}
use mqproxy.Wire.Frames.CursorMut.Items
use mqproxy.Wire.Frames.Cursor.Steps.{start, varint_then, string_then, finish_then}
use mqproxy.Wire.Frames.Auth.{AuthReq, encode_auth_req, decode_auth_req}

-- The fields that an AUTH_REQUEST is written from.
abbrev pub auth_req_items : AuthReq → List Item
auth_req_items f =
    number f.version ∷ text f.client_id 63 ∷ text f.auth_token 255 ∷ number f.features ∷ []

pub encode_auth_req-write :
    (f : AuthReq) (out : List ℕ)
    → encode_auth_req f out ≡ write (Items.at [] out) (auth_req_items f)
unfolding encode_auth_req
encode_auth_req-write f out = refl

-- Whatever padding a peer adds, and whatever follows the frame, its fields are read back, and its
-- length with the padding.
pub decode_auth_req-padded :
    (f : AuthReq) (pad rest : List ℕ)
    → All IsFit (auth_req_items f)
    → length pad ≤ max_value
    → decode_auth_req (padded (auth_req_items f) pad ++ rest)
      ≡ ok (f, length (padded (auth_req_items f) pad))
unfolding decode_auth_req
decode_auth_req-padded f pad rest v h =
    let a = Bytes.bytes f.version in
    let b = string_bytes f.client_id in
    let c = string_bytes f.auth_token in
    let d = Bytes.bytes f.features in
    let e = Bytes.bytes (length pad) ++ pad in
    simp (append_assoc a, append_assoc b, append_assoc c, append_assoc d)
      (rw
        (
          varint_at [] (b ++ (c ++ (d ++ (e ++ rest)))) f.version v.0,
          string_at a f.client_id (c ++ (d ++ (e ++ rest))) 63 v.1.0.0 (omega arith),
          string_at (a ++ b) f.auth_token (d ++ (e ++ rest)) 255 v.1.1.0.0 (omega arith),
          varint_at ((a ++ b) ++ c) (e ++ rest) f.features v.1.1.1.0,
          finish_at (((a ++ b) ++ c) ++ d) pad rest h,
        )
        (simp append_assoc))

pub decode_auth_req_ok :
    (buf : List ℕ) (f : AuthReq) (n : ℕ)
    → All IsByte buf
    → decode_auth_req buf ≡ ok (f, n)
    → Unit {0}
      × All IsFit (auth_req_items f)
      × (length (wire (auth_req_items f)) ≤ n)
      × (n ≤ length buf)
unfolding decode_auth_req
decode_auth_req_ok buf f n octets e = varint_then buf octets _ (start buf) e λ version c1 r1 h1 e1.
    string_then buf octets 63 _ r1 e1 λ client_id c2 r2 h2 o2 e2.
      string_then buf octets 255 _ r2 e2 λ auth_token c3 r3 h3 o3 e3.
        varint_then buf octets _ r3 e3 λ features c4 r4 h4 e4.
          finish_then buf octets _ r4 e4
            λ n' more inside done. ground (arith, length-wire (auth_req_items f))

pub auth_req_small :
    (f : AuthReq) → All IsFit (auth_req_items f) → length (wire (auth_req_items f)) ≤ max_frame
auth_req_small f v = omega (
  arith,
  length-wire (auth_req_items f),
  brief_string f.client_id,
  short_string f.auth_token,
  len_bounds f.version,
  len_bounds f.features,
)

abbrev pub auth_req_codec : Codec AuthReq
auth_req_codec = record {
  items = auth_req_items;
  IsSound = λ f. Unit {0};
  encode = encode_auth_req;
  decode = decode_auth_req;
  encode-write = λ f out s. encode_auth_req-write f out;
  decode-padded = λ f pad rest s. decode_auth_req-padded f pad rest;
  decode_ok = decode_auth_req_ok;
  small = auth_req_small;
}

-- What `encode` of an AUTH_REQUEST wrote has its fields in range, holds exactly their bytes with no
-- padding, leaves the buffer behind it unchanged, and decodes to the same request and length.
pub decode_auth_req-encode_auth_req :
    (f : AuthReq) (out out' : List ℕ) (n : ℕ)
    → encode_auth_req f out ≡ ok (out', n)
    → All IsFit (auth_req_items f)
      × Holds (wire (auth_req_items f)) out out' n
      × (decode_auth_req out' ≡ ok (f, n))
decode_auth_req-encode_auth_req f out out' n e = decode-encode auth_req_codec f out out' n tt e

-- An AUTH_REQUEST that was decoded from any bytes can be encoded into a buffer of 512 bytes, in no
-- more bytes than were read, and decodes to the same request.
pub reencode_auth_req :
    (buf : List ℕ) (f : AuthReq) (n : ℕ) (out : List ℕ)
    → All IsByte buf
    → decode_auth_req buf ≡ ok (f, n)
    → max_frame ≤ length out
    → (out' : List ℕ) × (m : ℕ) × (encode_auth_req f out ≡ ok (out', m))
      × (decode_auth_req out' ≡ ok (f, m))
      × (m ≤ n)
      × (n ≤ length buf)
reencode_auth_req buf f n out = reencode auth_req_codec buf f n out
