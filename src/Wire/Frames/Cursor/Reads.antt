-- ===== src/Wire/Frames/Cursor/Reads.antt =====
-- The reading cursor of crates/mq-wire/src/frames.rs on any input: what a successful read implies.
use mqproxy.Prelude.{
  ℕ, ◌+◌, ◌*◌, ◌≤◌, ◌≡◌, ap, ◌∙◌, List, [], ◌∷◌, ok, arith, length, length-drop, length-take, drop,
  IsByte, All, All-drop, All-take, Result-cases, >>=-eq-ok, inl, inr, IsU16,
}
use mqproxy.Wire.Varint
use mqproxy.Wire.Varint.Bytes.{len_bounds}
use mqproxy.Wire.Varint.Decode.{decode_bounds}
use mqproxy.Wire.Frames.Cursor.{Cursor, bytes, u8, u16, varint, string, finish, byte_at}

-- What a successful read implies, from a cursor inside its buffer: `Moved c c'` says that `c'`
-- reads the same buffer, is no further back, and is inside the buffer too.
pub record Moved (c c' : Cursor) : Type 0 where
  pub same : c'.buf ≡ c.buf
  pub forward : c.off ≤ c'.off
  pub inside : c'.off ≤ length c.buf

-- A cursor inside a buffer of bytes.
pub record IsReading (c : Cursor) : Type 0 where
  pub octets : All IsByte c.buf
  pub within : c.off ≤ length c.buf

pub Moved-IsReading : {c c' : Cursor} → IsReading c → Moved c c' → IsReading c'
Moved-IsReading {c} {c'} r m = record {
  octets = rw m.same r.octets;
  within = omega (arith, ap length m.same);
}

pub Moved-trans : {a b c : Cursor} → Moved a b → Moved b c → Moved a c
Moved-trans p q = record {
  same = q.same ∙ p.same;
  forward = omega arith;
  inside = omega (arith, ap length p.same);
}

pub bytes_ok :
    (c : Cursor) (n : ℕ) (b : List ℕ) (c' : Cursor)
    → IsReading c
    → bytes c n ≡ ok (b, c')
    → Moved c c' × (length b ≡ n) × All IsByte b × (c'.off ≡ c.off + n)
unfolding bytes
bytes_ok c n b c' r e = ground (
  arith,
  length-drop c.off c.buf,
  length-take n (drop c.off c.buf),
  All-take IsByte n (drop c.off c.buf) (All-drop IsByte c.off c.buf r.octets),
)

pub varint_ok :
    (c : Cursor) (v : ℕ) (c' : Cursor)
    → IsReading c
    → varint c ≡ ok (v, c')
    → Moved c c' × (v ≤ Varint.max_value) × (c.off + Varint.len v ≤ c'.off)
unfolding varint
varint_ok c v c' r e = elim (Result-cases (Varint.decode (drop c.off c.buf))) [
  | inl ((w, n), d) ↦ ground (
    arith,
    decode_bounds (drop c.off c.buf) w n (All-drop IsByte c.off c.buf r.octets) d,
    length-drop c.off c.buf,
  )
  | inr (x, d) ↦ ground arith
]

pub u8_ok :
    (c : Cursor) (v : ℕ) (c' : Cursor)
    → IsReading c
    → u8 c ≡ ok (v, c')
    → Moved c c' × IsByte v × (c'.off ≡ c.off + 1)
unfolding u8
u8_ok c v c' r e =
    let ((b, d), read, done) = >>=-eq-ok (bytes c 1) _ e in
    let (m, size, octets, moved) = bytes_ok c 1 b d r read in ground (arith, first_byte b octets)
  where
    first_byte : (b : List ℕ) → All IsByte b → IsByte (byte_at b 0)
    first_byte [] h = omega arith
    first_byte (x ∷ xs) h = h.0

pub u16_ok :
    (c : Cursor) (v : ℕ) (c' : Cursor)
    → IsReading c
    → u16 c ≡ ok (v, c')
    → Moved c c' × IsU16 v × (c'.off ≡ c.off + 2)
unfolding u16
u16_ok c v c' r e =
    let ((b, d), read, done) = >>=-eq-ok (bytes c 2) _ e in
    let (m, size, octets, moved) = bytes_ok c 2 b d r read in ground (arith, two_bytes b octets)
  where
    two_bytes : (b : List ℕ) → All IsByte b → IsU16 (byte_at b 0 * 256 + byte_at b 1)
    two_bytes [] h = omega arith
    two_bytes (x ∷ []) h = omega arith
    two_bytes (x ∷ y ∷ xs) h = omega arith

pub string_ok :
    (c : Cursor) (cap : ℕ) (s : List ℕ) (c' : Cursor)
    → IsReading c
    → string c cap ≡ ok (s, c')
    → Moved c c'
      × (length s ≤ cap)
      × All IsByte s
      × (c.off + Varint.len (length s) + length s ≤ c'.off)
unfolding string
string_ok c cap s c' r e =
    let ((n, d), read, rest) = >>=-eq-ok (varint c) _ e in
    let (m, small, moved) = varint_ok c n d r read in
    ground (arith, bytes_ok d n s c' (Moved-IsReading r m), Moved-trans {a = c} {b = d} {c = c'} m)

pub finish_ok :
    (c : Cursor) (n : ℕ) → IsReading c → finish c ≡ ok n → (c.off + 1 ≤ n) × (n ≤ length c.buf)
unfolding finish
finish_ok c n r e =
    let ((pad, d), read, rest) = >>=-eq-ok (varint c) _ e in
    let (m, small, moved) = varint_ok c pad d r read in
    let ((b, f), skipped, done) = >>=-eq-ok (bytes d pad) _ rest in
    let (m', size, octets, moved') = bytes_ok d pad b f (Moved-IsReading r m) skipped in
    ground (arith, ap length m.same, len_bounds pad)
