-- ===== src/Wire/Varint.antt =====
-- crates/mq-wire/src/varint.rs: QUIC variable-length integers of 1, 2, 4 or 8 bytes.
-- A byte slice is a list of numbers; an encoder returns the buffer that it has written to.
pub mod Bytes
pub mod Decode
pub mod RoundTrip
use mqproxy.Prelude.{
  ℕ, zero, suc, ◌+◌, ◌-◌, ◌*◌, ◌/◌, ◌%◌, ◌^◌, List, [], ◌∷◌, ◌++◌, Result, ok, err, ltb, leb, ◌==◌,
  if◌then◌else◌, length, take, drop, set, bit_and, bit_or,
}
use mathlib.Core.List.{foldl}

abbrev pub max_value : ℕ
max_value = 0x3FFF_FFFF_FFFF_FFFF

pub data Error : Type 0 where
  too_large : Error
  short : Error

unfoldable pub len : ℕ → ℕ
len v = if leb v 0x3F then 1 else if leb v 0x3FFF then 2 else if leb v 0x3FFF_FFFF then 4 else 8

-- `u64::to_be_bytes`.
abbrev pub to_be_bytes : ℕ → List ℕ
to_be_bytes v =
    v / 2 ^ 56 % 256
    ∷ v / 2 ^ 48 % 256
    ∷ v / 2 ^ 40 % 256
    ∷ v / 2 ^ 32 % 256
    ∷ v / 2 ^ 24 % 256
    ∷ v / 2 ^ 16 % 256
    ∷ v / 2 ^ 8 % 256
    ∷ v % 256
    ∷ []

-- The length class in the two top bits of the first byte.
unfoldable pub prefix : ℕ → ℕ
prefix n = if n == 1 then 0x00 else if n == 2 then 0x40 else if n == 4 then 0x80 else 0xC0

-- `buf[0] = (buf[0] & 0x3F) | prefix`, on a buffer that is not empty.
unfoldable pub mark_first : ℕ → List ℕ → List ℕ
mark_first p [] = []
mark_first p (b ∷ bs) = bit_or (bit_and b 0x3F) p ∷ bs

-- The buffer after the write, and the bytes used.
unfoldable pub encode : List ℕ → ℕ → Result Error (List ℕ × ℕ)
unfolding len prefix mark_first
encode buf v =
    if ltb max_value v
    then err too_large
    else if ltb (length buf) (len v)
    then err short
    else ok
        (mark_first (prefix (len v)) (drop (8 - len v) (to_be_bytes v) ++ drop (len v) buf), len v)

-- `v = (v << 8) | u64::from(*b)`, on a u64.
unfoldable pub shift_in : ℕ → ℕ → ℕ
shift_in v b = bit_or (v * 2 ^ 8 % 2 ^ 64) b

-- The value, and the bytes used. `n` is `1usize << (first >> 6)`.
unfoldable pub decode : List ℕ → Result Error (ℕ × ℕ)
unfolding shift_in
decode [] = err short
decode (first ∷ rest) =
    let n = 2 ^ (first / 2 ^ 6) in
    if ltb (suc (length rest)) n
    then err short
    else ok (foldl shift_in (bit_and first 0x3F) (take (n - 1) rest), n)
