-- ===== src/Wire/Frames/Cursor.antt =====
-- crates/mq-wire/src/frames.rs: the reading cursor. A method returns the cursor that it moved.
-- `usize` has 64 bits, so `usize::try_from` of a u64 always succeeds.
pub mod Laws
pub mod Reads
pub mod Steps
use mqproxy.Prelude.{
  ℕ, ◌+◌, ◌*◌, List, [], ◌∷◌, Result, ok, err, ◌>>=◌, map_err, if◌then◌else◌, ltb, length, take,
  drop,
}
use mqproxy.Wire.Varint
use mqproxy.Wire.Frames.Codes.{DecodeError}

pub record Cursor : Type 0 where
  pub buf : List ℕ
  pub off : ℕ

abbrev pub new : List ℕ → Cursor
new buf = record { buf = buf; off = 0 }

unfoldable pub bytes : Cursor → ℕ → Result DecodeError (List ℕ × Cursor)
bytes c n =
    let rest = drop c.off c.buf in
    if ltb (length rest) n
    then err DecodeError.short
    else ok (take n rest, record c { off = c.off + n })

-- `b[i]`, always in range here: `bytes` has returned as many as were asked for.
abbrev pub byte_at : List ℕ → ℕ → ℕ
byte_at [] i = 0
byte_at (b ∷ bs) ℕ.zero = b
byte_at (b ∷ bs) (ℕ.suc i) = byte_at bs i

unfoldable pub u8 : Cursor → Result DecodeError (ℕ × Cursor)
u8 c = do (b, c') ← bytes c 1; ok (byte_at b 0, c')

-- `u16::from_be_bytes`.
unfoldable pub u16 : Cursor → Result DecodeError (ℕ × Cursor)
u16 c = do (b, c') ← bytes c 2; ok (byte_at b 0 * 256 + byte_at b 1, c')

unfoldable pub varint : Cursor → Result DecodeError (ℕ × Cursor)
varint c = do
  (v, n) ← map_err (λ _. DecodeError.short) (Varint.decode (drop c.off c.buf))
  ok (v, record c { off = c.off + n })

-- A declared length over the cap is refused before the bytes are looked for.
unfoldable pub string : Cursor → ℕ → Result DecodeError (List ℕ × Cursor)
string c cap = do
  (len, c') ← varint c
  if ltb cap len then err DecodeError.bad_value else bytes c' len

-- Skips the padding and returns the length of the frame.
unfoldable pub finish : Cursor → Result DecodeError ℕ
finish c = do (pad, c') ← varint c; (skipped, c'') ← bytes c' pad; ok c''.off
