-- ===== src/Wire/Frames/Cursor/Laws.antt =====
-- The reading cursor of crates/mq-wire/src/frames.rs in front of well-formed fields.
use mqproxy.Prelude.{
  ℕ, ◌+◌, ◌*◌, ◌/◌, ◌%◌, ◌^◌, ◌<◌, ◌≤◌, ◌≡◌, refl, ap, List, [], ◌∷◌, ◌++◌, ok, arith, length,
  length-append, drop-length-append, take-length-append, take, append_assoc, ge→ltb,
}
use mqproxy.Wire.Varint
use mqproxy.Wire.Varint.Bytes
use mqproxy.Wire.Varint.Bytes.{len_bounds}
use mqproxy.Wire.Varint.Decode.{decode-bytes}
use mqproxy.Wire.Frames.Cursor.{Cursor, bytes, u8, u16, varint, string, finish}

-- A cursor that has read `pre` and has `xs` before it.
abbrev pub at : List ℕ → List ℕ → Cursor
at pre xs = record { buf = pre ++ xs; off = length pre }

pub bytes_at :
    (pre bs rest : List ℕ) (n : ℕ)
    → length bs ≡ n
    → bytes (at pre (bs ++ rest)) n ≡ ok (bs, at (pre ++ bs) rest)
unfolding bytes
bytes_at pre bs rest n h = rw (drop-length-append pre (bs ++ rest)) (
    ground (
      arith,
      length-append bs rest,
      length-append pre bs,
      ap length (append_assoc pre bs rest),
      append_assoc pre bs rest,
      taken,
    ))
  where
    taken : take n (bs ++ rest) ≡ bs
    taken = rw (← h) (take-length-append bs rest)

pub u8_at : (pre rest : List ℕ) (b : ℕ) → u8 (at pre (b ∷ rest)) ≡ ok (b, at (pre ++ (b ∷ [])) rest)
unfolding u8
u8_at pre rest b = rw (bytes_at pre (b ∷ []) rest 1 refl)

pub u16_at :
    (pre rest : List ℕ) (a b : ℕ)
    → u16 (at pre (a ∷ b ∷ rest)) ≡ ok (a * 256 + b, at (pre ++ (a ∷ b ∷ [])) rest)
unfolding u16
u16_at pre rest a b = rw (bytes_at pre (a ∷ b ∷ []) rest 2 refl)

-- `u16::from_be_bytes` of `u16::to_be_bytes`.
pub port_value : (port : ℕ) → port < 2 ^ 16 → port / 256 % 256 * 256 + port % 256 ≡ port
port_value port h = omega arith

pub varint_at :
    (pre rest : List ℕ) (v : ℕ)
    → v ≤ Varint.max_value
    → varint (at pre (Bytes.bytes v ++ rest)) ≡ ok (v, at (pre ++ Bytes.bytes v) rest)
unfolding varint
varint_at pre rest v h =
    rw (drop-length-append pre (Bytes.bytes v ++ rest), decode-bytes v rest h)
      (ground (
        arith,
        Bytes.length-bytes v,
        length-append pre (Bytes.bytes v),
        append_assoc pre (Bytes.bytes v) rest,
      ))

unfoldable pub string_bytes : List ℕ → List ℕ
string_bytes s = Bytes.bytes (length s) ++ s

pub length-string_bytes : (s : List ℕ) → length (string_bytes s) ≡ Varint.len (length s) + length s
unfolding string_bytes
length-string_bytes s =
    omega (arith, length-append (Bytes.bytes (length s)) s, Bytes.length-bytes (length s))

-- A string of at most 255 bytes has a length field of one or two.
pub short_string : (s : List ℕ) → length s ≤ 255 → length (string_bytes s) ≤ 257
unfolding Varint.len
short_string s h = ground (arith, length-string_bytes s)

pub brief_string : (s : List ℕ) → length s ≤ 63 → length (string_bytes s) ≤ 64
unfolding Varint.len
brief_string s h = ground (arith, length-string_bytes s)

pub string_at :
    (pre s rest : List ℕ) (cap : ℕ)
    → length s ≤ cap
    → cap ≤ Varint.max_value
    → string (at pre (string_bytes s ++ rest)) cap ≡ ok (s, at (pre ++ string_bytes s) rest)
unfolding string string_bytes
string_at pre s rest cap h k =
    rw
      (
        append_assoc (Bytes.bytes (length s)) s rest,
        varint_at pre (s ++ rest) (length s) (omega arith),
      )
      (rw (ge→ltb cap (length s) h, bytes_at (pre ++ Bytes.bytes (length s)) s rest (length s) refl)
        (ap (λ p. ok (s, at p rest)) (append_assoc pre (Bytes.bytes (length s)) s)))

pub finish_at :
    (pre pad rest : List ℕ)
    → length pad ≤ Varint.max_value
    → finish (at pre ((Bytes.bytes (length pad) ++ pad) ++ rest))
      ≡ ok (length (pre ++ (Bytes.bytes (length pad) ++ pad)))
unfolding finish
finish_at pre pad rest h =
    rw
      (
        append_assoc (Bytes.bytes (length pad)) pad rest,
        varint_at pre (pad ++ rest) (length pad) h,
        bytes_at (pre ++ Bytes.bytes (length pad)) pad rest (length pad) refl,
      )
      (ap (λ p. ok (length p)) (append_assoc pre (Bytes.bytes (length pad)) pad))
