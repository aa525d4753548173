-- ===== src/Wire/Varint/Decode.antt =====
-- `decode` on any input, canonical or not.
use mqproxy.Prelude.{
  ℕ, zero, suc, ◌+◌, ◌-◌, ◌*◌, ◌/◌, ◌%◌, ◌^◌, ◌≤◌, ◌<◌, ◌≡◌, refl, ap, ◌⊎◌, inl, inr, List, [], ◌∷◌,
  ◌++◌, ok, arith, length, length-append, take, IsByte, All, All-take, bit_and, length-take,
}
use mqproxy.Prelude.Bits.{low_six, bit_or-shifted}
use mqproxy.Wire.Varint.{max_value, len, decode, shift_in}
use mqproxy.Wire.Varint.Bytes.{bytes}
use mathlib.Core.List.{foldl}
use native.Mathlib.Nat.{pow-suc}

-- One byte goes in below the value, and nothing is lost while the value stays under 56 bits.
pub shift_in_lem : (v b : ℕ) → v < 2 ^ 56 → b < 256 → shift_in v b ≡ v * 256 + b
unfolding shift_in
shift_in_lem v b hv hb =
    let e : v * 2 ^ 8 % 2 ^ 64 ≡ v * 2 ^ 8 = omega arith in rw e (bit_or-shifted 8 v b hb)

-- One round for each length class: `a` holds the low six bits of the first byte.
decode_one : (a : ℕ) (rest : List ℕ) → a < 64 → decode (a ∷ rest) ≡ ok (a, 1)
unfolding decode
decode_one a rest h = let e : a / 64 ≡ 0 = omega arith in rw e (ground (arith, low_six a))

decode_two :
    (a b : ℕ) (rest : List ℕ)
    → a < 64
    → IsByte b
    → decode ((a + 64) ∷ b ∷ rest) ≡ ok (a * 256 + b, 2)
unfolding decode
decode_two a b rest h hb =
    let e : (a + 64) / 64 ≡ 1 = omega arith in
    rw e (ground (arith, low_six (a + 64), shift_in_lem a b))

decode_four :
    (a b c d : ℕ) (rest : List ℕ)
    → a < 64
    → All IsByte (b ∷ c ∷ d ∷ [])
    → decode ((a + 128) ∷ b ∷ c ∷ d ∷ rest) ≡ ok (((a * 256 + b) * 256 + c) * 256 + d, 4)
unfolding decode
decode_four a b c d rest h hs =
    let e : (a + 128) / 64 ≡ 2 = omega arith in
    rw e (
      ground (
        arith,
        low_six (a + 128),
        shift_in_lem a b,
        shift_in_lem (a * 256 + b) c,
        shift_in_lem ((a * 256 + b) * 256 + c) d,
      ))

abbrev over : ℕ → ℕ → ℕ
over v b = v * 256 + b

decode_eight :
    (a b c d f g i j : ℕ) (rest : List ℕ)
    → a < 64
    → All IsByte (b ∷ c ∷ d ∷ f ∷ g ∷ i ∷ j ∷ [])
    → decode ((a + 192) ∷ b ∷ c ∷ d ∷ f ∷ g ∷ i ∷ j ∷ rest)
      ≡ ok (over (over (over (over (over (over (over a b) c) d) f) g) i) j, 8)
unfolding decode
decode_eight a b c d f g i j rest h hs =
    let e : (a + 192) / 64 ≡ 3 = omega arith in
    rw e (
      ground (
        arith,
        low_six (a + 192),
        shift_in_lem a b,
        shift_in_lem (over a b) c,
        shift_in_lem (over (over a b) c) d,
        shift_in_lem (over (over (over a b) c) d) f,
        shift_in_lem (over (over (over (over a b) c) d) f) g,
        shift_in_lem (over (over (over (over (over a b) c) d) f) g) i,
        shift_in_lem (over (over (over (over (over (over a b) c) d) f) g) i) j,
      ))

pub decode-bytes :
    (v : ℕ) (rest : List ℕ) → v ≤ max_value → decode (bytes v ++ rest) ≡ ok (v, len v)
unfolding bytes len
decode-bytes v rest h = ground (
  arith,
  decode_one v rest,
  decode_two (v / 2 ^ 8) (v % 256) rest,
  decode_four (v / 2 ^ 24) (v / 2 ^ 16 % 256) (v / 2 ^ 8 % 256) (v % 256) rest,
  decode_eight (v / 2 ^ 56) (v / 2 ^ 48 % 256) (v / 2 ^ 40 % 256) (v / 2 ^ 32 % 256)
      (v / 2 ^ 24 % 256) (v / 2 ^ 16 % 256) (v / 2 ^ 8 % 256) (v % 256) rest,
)

pow_pos : (k : ℕ) → 0 < 256 ^ k
pow_pos zero = omega arith
pow_pos (suc k) = omega (arith, pow-suc 256 k, pow_pos k)

fold_lt :
    (bs : List ℕ) (v m : ℕ)
    → All IsByte bs
    → v < m
    → m * 256 ^ length bs ≤ 2 ^ 64
    → foldl shift_in v bs < m * 256 ^ length bs
fold_lt [] v m h lt fits = omega arith
fold_lt (b ∷ bs) v m h lt fits =
    let p = 256 ^ length bs in
    let e : 256 ^ suc (length bs) ≡ 256 * p = omega (arith, pow-suc 256 (length bs)) in
    let r : m * 256 * p ≡ m * 256 ^ suc (length bs) = omega (arith, ap (◌*◌ m) e) in
    let q : 0 < p = pow_pos (length bs) in
    let step : shift_in v b ≡ v * 256 + b = shift_in_lem v b (grind arith) h.0 in
    let rec : foldl shift_in (shift_in v b) bs < m * 256 * p =
      fold_lt bs (shift_in v b) (m * 256) h.1 (omega arith) (omega arith) in
    omega arith

-- What a successful `decode` has computed.
decode_parts :
    (b : ℕ) (bs : List ℕ) (v n : ℕ)
    → decode (b ∷ bs) ≡ ok (v, n)
    → (n ≡ 2 ^ (b / 64))
      × (n ≤ suc (length bs))
      × (v ≡ foldl shift_in (bit_and b 63) (take (2 ^ (b / 64) - 1) bs))
unfolding decode
decode_parts b bs v n e = ground arith

class_cases : (b : ℕ) → b < 256 → (b / 64 ≡ 0) ⊎ (b / 64 ≡ 1) ⊎ (b / 64 ≡ 2) ⊎ (b / 64 ≡ 3)
class_cases b h = omega arith

payload_lt :
    (b : ℕ) (bs : List ℕ) (j : ℕ)
    → All IsByte (b ∷ bs)
    → 64 * 256 ^ j ≤ 2 ^ 64
    → j ≤ length bs
    → foldl shift_in (bit_and b 63) (take j bs) < 64 * 256 ^ j
payload_lt b bs j h small fits =
    let e : length (take j bs) ≡ j = omega (arith, length-take j bs) in
    rw e at (
      fold_lt (take j bs) (bit_and b 63) 64 (All-take IsByte j bs h.1)
        (omega (arith, low_six b h.0)) (rw e small))

-- A decoded value is in range, and its shortest form is no longer than what was read.
pub decode_bounds :
    (buf : List ℕ) (v n : ℕ)
    → All IsByte buf
    → decode buf ≡ ok (v, n)
    → (v ≤ max_value) × (len v ≤ n) × (1 ≤ n) × (n ≤ 8) × (n ≤ length buf)
unfolding len
decode_bounds [] v n h e = unfold decode in cc
decode_bounds (b ∷ bs) v n h e =
    let (size, fits, value) = decode_parts b bs v n e in
    elim (class_cases b h.0) [
      | inl c ↦
          let n1 : n ≡ 1 = rw c at size in
          let v1 : v ≡ foldl shift_in (bit_and b 63) (take 0 bs) = rw c at value in
          ground (arith, payload_lt b bs 0 h)
      | inr (inl c) ↦
          let n1 : n ≡ 2 = rw c at size in
          let v1 : v ≡ foldl shift_in (bit_and b 63) (take 1 bs) = rw c at value in
          ground (arith, payload_lt b bs 1 h)
      | inr (inr (inl c)) ↦
          let n2 : n ≡ 4 = rw c at size in
          let v1 : v ≡ foldl shift_in (bit_and b 63) (take 3 bs) = rw c at value in
          ground (arith, payload_lt b bs 3 h)
      | inr (inr (inr c)) ↦
          let n3 : n ≡ 8 = rw c at size in
          let v1 : v ≡ foldl shift_in (bit_and b 63) (take 7 bs) = rw c at value in
          ground (arith, payload_lt b bs 7 h)
    ]

take-append_le {ℓ} :
    {A : Type ℓ} (j : ℕ) (xs ys : List A) → j ≤ length xs → take j (xs ++ ys) ≡ take j xs
take-append_le zero xs ys h = refl
take-append_le (suc j) [] ys h = absurd (omega arith)
take-append_le (suc j) (x ∷ xs) ys h = ap (◌∷◌ x) (take-append_le j xs ys (omega arith))

-- More input changes nothing.
pub decode-append :
    (buf more : List ℕ) (v n : ℕ) → decode buf ≡ ok (v, n) → decode (buf ++ more) ≡ ok (v, n)
unfolding decode
decode-append [] more v n e = cc
decode-append (b ∷ bs) more v n e =
    ground (arith, take-append_le (2 ^ (b / 64) - 1) bs more, length-append bs more)
