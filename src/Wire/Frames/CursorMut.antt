-- ===== src/Wire/Frames/CursorMut.antt =====
-- crates/mq-wire/src/frames.rs: the writing cursor. A method returns the cursor with the buffer that
-- it has written to; what a failed encoder has left in the buffer is not modelled, for no caller
-- reads it.
pub mod Items
pub mod Writes
use mqproxy.Prelude.{
  ℕ, ◌+◌, List, [], ◌∷◌, ◌++◌, Result, ok, err, ◌>>=◌, map_err, if◌then◌else◌, ltb, length, take,
  drop,
}
use mqproxy.Wire.Varint
use mqproxy.Wire.Frames.Codes.{EncodeError}

pub record CursorMut : Type 0 where
  pub buf : List ℕ
  pub off : ℕ

abbrev pub new : List ℕ → CursorMut
new buf = record { buf = buf; off = 0 }

unfoldable pub bytes : CursorMut → List ℕ → Result EncodeError CursorMut
bytes w b =
    if ltb (length (drop w.off w.buf)) (length b)
    then err EncodeError.short
    else ok (record {
      buf = take w.off w.buf ++ (b ++ drop (w.off + length b) w.buf);
      off = w.off + length b;
    })

abbrev pub encode_error : Varint.Error → EncodeError
encode_error Varint.too_large = EncodeError.bad_value
encode_error Varint.short = EncodeError.short

unfoldable pub varint : CursorMut → ℕ → Result EncodeError CursorMut
varint w v = do
  (room, n) ← map_err encode_error (Varint.encode (drop w.off w.buf) v)
  ok (record { buf = take w.off w.buf ++ room; off = w.off + n })

unfoldable pub string : CursorMut → List ℕ → ℕ → Result EncodeError CursorMut
string w s cap =
    if ltb cap (length s) then err EncodeError.too_long else do w' ← varint w (length s); bytes w' s

-- Writes a padding length of 0, and returns the buffer and the length of the frame.
unfoldable pub finish : CursorMut → Result EncodeError (List ℕ × ℕ)
finish w = do w' ← varint w 0; ok (w'.buf, w'.off)
