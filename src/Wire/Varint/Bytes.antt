-- ===== src/Wire/Varint/Bytes.antt =====
-- What `encode` writes, in plain arithmetic.
use mqproxy.Prelude.{
  ℕ, ◌+◌, ◌/◌, ◌%◌, ◌^◌, ◌≤◌, ◌≡◌, List, [], ◌∷◌, ◌++◌, ok, arith, if◌then◌else◌, leb, length, drop,
  IsByte, All,
}
use mqproxy.Prelude.Bits.{low_six, or_0x00, or_0x40, or_0x80, or_0xc0}
use mqproxy.Wire.Varint.{max_value, len, encode}

-- The bytes of `v`, shortest form, for `v` up to `max_value`.
unfoldable pub bytes : ℕ → List ℕ
bytes v =
    if leb v 0x3F
    then v ∷ []
    else if leb v 0x3FFF
    then (v / 2 ^ 8 + 0x40) ∷ v % 256 ∷ []
    else if leb v 0x3FFF_FFFF
    then (v / 2 ^ 24 + 0x80) ∷ v / 2 ^ 16 % 256 ∷ v / 2 ^ 8 % 256 ∷ v % 256 ∷ []
    else (v / 2 ^ 56 + 0xC0)
      ∷ v / 2 ^ 48 % 256
      ∷ v / 2 ^ 40 % 256
      ∷ v / 2 ^ 32 % 256
      ∷ v / 2 ^ 24 % 256
      ∷ v / 2 ^ 16 % 256
      ∷ v / 2 ^ 8 % 256
      ∷ v % 256
      ∷ []

pub length-bytes : (v : ℕ) → length (bytes v) ≡ len v
unfolding bytes len
length-bytes v = ground arith

pub len_bounds : (v : ℕ) → (1 ≤ len v) × (len v ≤ 8)
unfolding len
len_bounds v = ground arith

pub bytes-IsByte : (v : ℕ) → v ≤ max_value → All IsByte (bytes v)
unfolding bytes
bytes-IsByte v h = ground arith

pub encode-bytes :
    (buf : List ℕ) (v : ℕ)
    → v ≤ max_value
    → len v ≤ length buf
    → encode buf v ≡ ok (bytes v ++ drop (len v) buf, len v)
unfolding bytes encode
encode-bytes buf v h fits = ground (
  arith,
  low_six (v % 256),
  low_six (v / 2 ^ 8 % 256),
  low_six (v / 2 ^ 24 % 256),
  low_six (v / 2 ^ 56 % 256),
  or_0x00 (v % 256 % 64),
  or_0x40 (v / 2 ^ 8 % 256 % 64),
  or_0x80 (v / 2 ^ 24 % 256 % 64),
  or_0xc0 (v / 2 ^ 56 % 256 % 64),
)
