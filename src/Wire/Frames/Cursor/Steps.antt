-- ===== src/Wire/Frames/Cursor/Steps.antt =====
-- To take a decoder of crates/mq-wire/src/frames.rs apart, one read at a time.
use mqproxy.Prelude.{
  ℕ, ◌+◌, ◌≤◌, ◌≡◌, refl, ap, ◌∙◌, List, ok, arith, length, IsByte, All, >>=-eq-ok, IsU16, Result,
  ◌>>=◌,
}
use mqproxy.Wire.Varint
use mqproxy.Wire.Frames.Cursor.Laws.{string_bytes, length-string_bytes}
use mqproxy.Wire.Frames.Codes.{DecodeError}
use mqproxy.Wire.Frames.Cursor.{Cursor, new, bytes, u8, u16, varint, string, finish}
use mqproxy.Wire.Frames.Cursor.Reads.{
  IsReading, Moved, varint_ok, u8_ok, u16_ok, string_ok, finish_ok,
}

-- The cursor reads `buf`, and at least `p` bytes lie behind it.
pub record Reading (buf : List ℕ) (p : ℕ) (c : Cursor) : Type 0 where
  pub same : c.buf ≡ buf
  pub behind : p ≤ c.off
  pub within : c.off ≤ length buf

reading : {buf : List ℕ} {p : ℕ} {c : Cursor} → All IsByte buf → Reading buf p c → IsReading c
reading octets r = record { octets = rw r.same octets; within = omega (arith, ap length r.same) }

pub start : (buf : List ℕ) → Reading buf 0 (new buf)
start buf = record { same = refl; behind = omega arith; within = omega arith }

advance :
    {buf : List ℕ} {p : ℕ} {c d : Cursor} (k : ℕ)
    → Reading buf p c
    → Moved c d
    → c.off + k ≤ d.off
    → Reading buf (p + k) d
advance k r m h = record {
  same = m.same ∙ r.same;
  behind = omega arith;
  within = omega (arith, ap length r.same);
}

-- To take a decoder apart: if a read and what follows it succeed, then so did the read, with what
-- its law says of it.
module _ {B : Type 0} {b : B} (buf : List ℕ) (octets : All IsByte buf) where
  pub varint_then {ℓ} :
      {G : Type ℓ} {p : ℕ} {c : Cursor} (k : ℕ × Cursor → Result DecodeError B)
      → Reading buf p c
      → (varint c >>= k) ≡ ok b
      → ((v : ℕ) (d : Cursor)
          → Reading buf (p + Varint.len v) d
          → v ≤ Varint.max_value
          → k (v, d) ≡ ok b
          → G)
      → G
  varint_then {c} k r e next =
      let ((v, d), read, rest) = >>=-eq-ok (varint c) k e in
      let (m, small, moved) = varint_ok c v d (reading octets r) read in
      next v d (advance (Varint.len v) r m (omega (arith))) small rest

  pub u8_then {ℓ} :
      {G : Type ℓ} {p : ℕ} {c : Cursor} (k : ℕ × Cursor → Result DecodeError B)
      → Reading buf p c
      → (u8 c >>= k) ≡ ok b
      → ((v : ℕ) (d : Cursor) → Reading buf (p + 1) d → IsByte v → k (v, d) ≡ ok b → G)
      → G
  u8_then {c} k r e next =
      let ((v, d), read, rest) = >>=-eq-ok (u8 c) k e in
      let (m, octet, moved) = u8_ok c v d (reading octets r) read in
      next v d (advance 1 r m (omega (arith))) octet rest

  pub u16_then {ℓ} :
      {G : Type ℓ} {p : ℕ} {c : Cursor} (k : ℕ × Cursor → Result DecodeError B)
      → Reading buf p c
      → (u16 c >>= k) ≡ ok b
      → ((v : ℕ) (d : Cursor) → Reading buf (p + 2) d → IsU16 v → k (v, d) ≡ ok b → G)
      → G
  u16_then {c} k r e next =
      let ((v, d), read, rest) = >>=-eq-ok (u16 c) k e in
      let (m, fits, moved) = u16_ok c v d (reading octets r) read in
      next v d (advance 2 r m (omega (arith))) fits rest

  pub string_then {ℓ} :
      {G : Type ℓ} {p : ℕ} {c : Cursor} (limit : ℕ) (k : List ℕ × Cursor → Result DecodeError B)
      → Reading buf p c
      → (string c limit >>= k) ≡ ok b
      → ((s : List ℕ) (d : Cursor)
          → Reading buf (p + length (string_bytes s)) d
          → length s ≤ limit
          → All IsByte s
          → k (s, d) ≡ ok b
          → G)
      → G
  string_then {c} limit k r e next =
      let ((s, d), read, rest) = >>=-eq-ok (string c limit) k e in
      let (m, short, bytes, moved) = string_ok c limit s d (reading octets r) read in
      next s d (advance (length (string_bytes s)) r m (omega (arith, length-string_bytes s))) short
        bytes rest

  pub finish_then {ℓ} :
      {G : Type ℓ} {p : ℕ} {c : Cursor} (k : ℕ → Result DecodeError B)
      → Reading buf p c
      → (finish c >>= k) ≡ ok b
      → ((n : ℕ) → p + 1 ≤ n → n ≤ length buf → k n ≡ ok b → G)
      → G
  finish_then {c} k r e next =
      let (n, read, rest) = >>=-eq-ok (finish c) k e in
      let (more, inside) = finish_ok c n (reading octets r) read in
      next n (omega arith) (omega (arith, ap length r.same)) rest
