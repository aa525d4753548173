-- ===== src/Wire/Frames/Auth/Response.antt =====
-- AUTH_RESPONSE of crates/mq-wire/src/frames.rs: what is written is read back.
use mqproxy.Prelude.{
  ℕ, ◌≤◌, ◌≡◌, refl, List, [], ◌∷◌, ◌++◌, ok, arith, length, All, IsByte, append_assoc,
}
use mqproxy.Wire.Varint.{max_value}
use mqproxy.Wire.Varint.Bytes
use mqproxy.Wire.Varint.Bytes.{len_bounds}
use mqproxy.Wire.Frames.Codec.{Codec, Holds, decode-encode, reencode}
use mqproxy.Wire.Frames.Codes.{max_frame}
use mqproxy.Wire.Frames.Cursor.Laws.{
  string_bytes, brief_string, varint_at, string_at, finish_at, u8_at,
}
use mqproxy.Wire.Frames.CursorMut.Items.{
  Item, IsFit, length-wire, padded, number, raw, text, write, wire,
}
use mqproxy.Wire.Frames.CursorMut.Items
use mqproxy.Wire.Frames.Cursor.Steps.{start, varint_then, string_then, finish_then, u8_then}
use mqproxy.Wire.Frames.Auth.{AuthResp, encode_auth_resp, decode_auth_resp}

-- The fields that the frame is written from.
abbrev pub auth_resp_items : AuthResp → List Item
auth_resp_items f =
    raw (f.status ∷ []) ∷ number f.error_code ∷ text f.server_id 63 ∷ number f.features ∷ []

pub encode_auth_resp-write :
    (f : AuthResp) (out : List ℕ)
    → Unit {0}
    → encode_auth_resp f out ≡ write (Items.at [] out) (auth_resp_items f)
unfolding encode_auth_resp
encode_auth_resp-write f out s = refl

-- Whatever padding a peer adds, and whatever follows the frame, its fields are read back, and its
-- length with the padding.
pub decode_auth_resp-padded :
    (f : AuthResp) (pad rest : List ℕ)
    → Unit {0}
    → All IsFit (auth_resp_items f)
    → length pad ≤ max_value
    → decode_auth_resp (padded (auth_resp_items f) pad ++ rest)
      ≡ ok (f, length (padded (auth_resp_items f) pad))
unfolding decode_auth_resp
decode_auth_resp-padded f pad rest s v h =
    let a : List ℕ = f.status ∷ [] in
    let b : List ℕ = Bytes.bytes f.error_code in
    let c : List ℕ = string_bytes f.server_id in
    let d : List ℕ = Bytes.bytes f.features in
    let e = Bytes.bytes (length pad) ++ pad in
    simp
      (
        append_assoc (Bytes.bytes f.error_code),
        append_assoc (string_bytes f.server_id),
        append_assoc (Bytes.bytes f.features),
      )
      (rw
        (
          u8_at [] (b ++ (c ++ (d ++ (e ++ rest)))) f.status,
          varint_at a (c ++ (d ++ (e ++ rest))) f.error_code v.1.0,
          string_at (a ++ b) f.server_id (d ++ (e ++ rest)) 63 v.1.1.0.0 (omega arith),
          varint_at ((a ++ b) ++ c) (e ++ rest) f.features v.1.1.1.0,
          finish_at (((a ++ b) ++ c) ++ d) pad rest h,
        )
        (simp append_assoc))

pub decode_auth_resp_ok :
    (buf : List ℕ) (f : AuthResp) (n : ℕ)
    → All IsByte buf
    → decode_auth_resp buf ≡ ok (f, n)
    → Unit {0}
      × All IsFit (auth_resp_items f)
      × (length (wire (auth_resp_items f)) ≤ n)
      × (n ≤ length buf)
unfolding decode_auth_resp
decode_auth_resp_ok buf f n octets e = u8_then buf octets _ (start buf) e λ status c1 r1 h1 e1.
    varint_then buf octets _ r1 e1 λ error_code c2 r2 h2 e2.
      string_then buf octets 63 _ r2 e2 λ server_id c3 r3 h3 o3 e3.
        varint_then buf octets _ r3 e3 λ features c4 r4 h4 e4.
          finish_then buf octets _ r4 e4
            λ n' more inside done. ground (arith, length-wire (auth_resp_items f))

pub auth_resp_small :
    (f : AuthResp) → All IsFit (auth_resp_items f) → length (wire (auth_resp_items f)) ≤ max_frame
auth_resp_small f v = omega (
  arith,
  length-wire (auth_resp_items f),
  len_bounds f.error_code,
  brief_string f.server_id,
  len_bounds f.features,
)

abbrev pub auth_resp_codec : Codec AuthResp
auth_resp_codec = record {
  items = auth_resp_items;
  IsSound = λ f. Unit {0};
  encode = encode_auth_resp;
  decode = decode_auth_resp;
  encode-write = encode_auth_resp-write;
  decode-padded = decode_auth_resp-padded;
  decode_ok = decode_auth_resp_ok;
  small = auth_resp_small;
}

-- What `encode` of an AUTH_RESPONSE wrote has its fields in range, holds exactly their bytes with
-- no padding, leaves the buffer behind it unchanged, and decodes to the same frame and length.
pub decode_auth_resp-encode_auth_resp :
    (f : AuthResp) (out out' : List ℕ) (n : ℕ)
    → encode_auth_resp f out ≡ ok (out', n)
    → All IsFit (auth_resp_items f)
      × Holds (wire (auth_resp_items f)) out out' n
      × (decode_auth_resp out' ≡ ok (f, n))
decode_auth_resp-encode_auth_resp f out out' n e = decode-encode auth_resp_codec f out out' n tt e

-- An AUTH_RESPONSE that was decoded from any bytes can be encoded into a buffer of 512
-- bytes, in no more bytes than were read, and decodes to the same frame.
pub reencode_auth_resp :
    (buf : List ℕ) (f : AuthResp) (n : ℕ) (out : List ℕ)
    → All IsByte buf
    → decode_auth_resp buf ≡ ok (f, n)
    → max_frame ≤ length out
    → (out' : List ℕ) × (m : ℕ) × (encode_auth_resp f out ≡ ok (out', m))
      × (decode_auth_resp out' ≡ ok (f, m))
      × (m ≤ n)
      × (n ≤ length buf)
reencode_auth_resp buf f n out = reencode auth_resp_codec buf f n out
