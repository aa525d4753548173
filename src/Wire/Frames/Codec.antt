-- ===== src/Wire/Frames/Codec.antt =====
-- What every frame of crates/mq-wire/src/frames.rs promises: an interface over an encoder and a
-- decoder, and the laws that follow from it for each frame.
use mqproxy.Prelude.{
  ℕ, ◌≤◌, ◌<◌, ◌≡◌, List, [], ◌++◌, Result, ok, err, arith, length, drop, All, IsByte,
  length-append, length-drop,
}
use mqproxy.Wire.Varint
use mqproxy.Wire.Frames.Codes.{EncodeError, DecodeError, max_frame}
use mqproxy.Wire.Frames.CursorMut.Items.{Item, padded, padded-nil, write, wire, at, IsFit}
use mqproxy.Wire.Frames.CursorMut.Writes.{write_fit, write_ok, write_short}

-- `items` are the fields that the encoder writes; `IsSound` says what the struct's type and its own
-- checks ask of a frame beyond the ranges of its fields.
pub record Codec (F : Type 0) : Type 1 where
  pub items : F → List Item
  pub IsSound : F → Type 0
  pub encode : F → List ℕ → Result EncodeError (List ℕ × ℕ)
  pub decode : List ℕ → Result DecodeError (F × ℕ)
  pub encode-write : (f : F) (out : List ℕ) → IsSound f → encode f out ≡ write (at [] out) (items f)
  pub decode-padded :
      (f : F) (pad rest : List ℕ)
      → IsSound f
      → All IsFit (items f)
      → length pad ≤ Varint.max_value
      → decode (padded (items f) pad ++ rest) ≡ ok (f, length (padded (items f) pad))
  pub decode_ok :
      (buf : List ℕ) (f : F) (n : ℕ)
      → All IsByte buf
      → decode buf ≡ ok (f, n)
      → IsSound f × All IsFit (items f) × (length (wire (items f)) ≤ n) × (n ≤ length buf)
  pub small : (f : F) → All IsFit (items f) → length (wire (items f)) ≤ max_frame

-- The buffer holds the frame from its start, and is unchanged behind it.
pub record Holds (bytes out out' : List ℕ) (n : ℕ) : Type 0 where
  pub written : out' ≡ bytes ++ drop n out
  pub size : n ≡ length bytes
  pub fits : n ≤ length out
  pub same_length : length out' ≡ length out

module _ {F : Type 0} (c : Codec F) where
  open c use {items, IsSound, encode, decode}

  pub encode_fit :
      (f : F) (out : List ℕ)
      → IsSound f
      → All IsFit (items f)
      → length (wire (items f)) ≤ length out
      → encode f out
        ≡ ok (wire (items f) ++ drop (length (wire (items f))) out, length (wire (items f)))
  encode_fit f out s h fits =
      rw (c.encode-write f out s, write_fit (items f) [] out h fits) (ground arith)

  decode-wire :
      (f : F) (rest : List ℕ)
      → IsSound f
      → All IsFit (items f)
      → decode (wire (items f) ++ rest) ≡ ok (f, length (wire (items f)))
  decode-wire f rest s h = rw padded-nil at (c.decode-padded f [] rest s h (omega arith))

  -- What was encoded has fields in range, is laid out as `items`, and is read back.
  pub decode-encode :
      (f : F) (out out' : List ℕ) (n : ℕ)
      → IsSound f
      → encode f out ≡ ok (out', n)
      → All IsFit (items f) × Holds (wire (items f)) out out' n × (decode out' ≡ ok (f, n))
  decode-encode f out out' n s e =
      let e' : write (at [] out) (items f) ≡ ok (out', n) = rw (c.encode-write f out s) at e in
      let (h, fits) = write_ok (items f) [] out (out', n) e' in
      let r = encode_fit f out s h fits in
      let written : out' ≡ wire (items f) ++ drop (length (wire (items f))) out = cc in
      let size : n ≡ length (wire (items f)) = cc in
      (
        h,
        record {
          written = rw size written;
          size = size;
          fits = omega arith;
          same_length = rw written (
              omega (
                arith,
                length-append (wire (items f)) (drop (length (wire (items f))) out),
                length-drop (length (wire (items f))) out,
              ));
        },
        rw (written, size) (decode-wire f (drop (length (wire (items f))) out) s h),
      )

  -- A frame with its fields in range always fits a buffer of `max_frame` bytes.
  pub encode_total :
      (f : F) (out : List ℕ)
      → IsSound f
      → All IsFit (items f)
      → max_frame ≤ length out
      → (out' : List ℕ) × (n : ℕ) × (encode f out ≡ ok (out', n)) × (n ≤ max_frame)
  encode_total f out s h fits =
      (_, _, encode_fit f out s h (omega (arith, c.small f h)), c.small f h)

  -- Too small a buffer is refused as `short`.
  pub encode_short :
      (f : F) (out : List ℕ)
      → IsSound f
      → All IsFit (items f)
      → length out < length (wire (items f))
      → encode f out ≡ err EncodeError.short
  encode_short f out s h lt = rw (c.encode-write f out s) (write_short (items f) [] out h lt)

  -- What was decoded can be encoded again, in no more bytes, and means the same.
  pub reencode :
      (buf : List ℕ) (f : F) (n : ℕ) (out : List ℕ)
      → All IsByte buf
      → decode buf ≡ ok (f, n)
      → max_frame ≤ length out
      → (out' : List ℕ) × (m : ℕ) × (encode f out ≡ ok (out', m))
        × (decode out' ≡ ok (f, m))
        × (m ≤ n)
        × (n ≤ length buf)
  reencode buf f n out octets e fits =
      let (s, h, shorter, inside) = c.decode_ok buf f n octets e in
      let r = encode_fit f out s h (omega (arith, c.small f h)) in
      (_, _, r, decode-wire f _ s h, shorter, inside)
