-- ===== src/Wire/Varint/RoundTrip.antt =====
-- `encode` and `decode` of crates/mq-wire/src/varint.rs together, on every branch.
use mqproxy.Prelude.{
  ℕ, ◌≤◌, ◌<◌, ◌≡◌, List, ◌++◌, ok, err, arith, length, drop, length-append, length-drop, ◌↔◌,
  drop-length-append,
}
use mqproxy.Wire.Varint.{max_value, len, decode, encode, too_large, short}
use mqproxy.Wire.Varint.Bytes.{bytes, encode-bytes, length-bytes}
use mqproxy.Wire.Varint.Decode.{decode-bytes}

-- A successful `encode` had a value in range and room for it.
pub encode_ok :
    (buf out : List ℕ) (v n : ℕ)
    → encode buf v ≡ ok (out, n)
    → (v ≤ max_value) × (len v ≤ length buf) × (n ≡ len v) × (out ≡ bytes v ++ drop n buf)
encode_ok buf out v n e =
    let (small, fits) = room in let w = encode-bytes buf v small fits in (small, fits, cc, cc)
  where
    room : (v ≤ max_value) × (len v ≤ length buf)
    room = unfold encode in ground arith

-- What `encode` wrote, `decode` reads back with the same length; the rest of the buffer and its
-- length are as before.
pub decode-encode :
    (buf out : List ℕ) (v n : ℕ)
    → encode buf v ≡ ok (out, n)
    → (decode out ≡ ok (v, n)) × (drop n out ≡ drop n buf) × (length out ≡ length buf)
decode-encode buf out v n e =
    let (small, fits, size, written) = encode_ok buf out v n e in
    let m : length (bytes v) ≡ n = omega (arith, length-bytes v) in
    (
      rw (written, size) (decode-bytes v (drop (len v) buf) small),
      rw (written, ← m) (drop-length-append (bytes v) _),
      rw written (omega (arith, length-append (bytes v) (drop n buf), length-drop n buf)),
    )

-- `encode` fails with `too_large` exactly on the values over 2^62 - 1, and with `short` exactly on
-- the other values when the buffer is shorter than their shortest form.
pub encode_errors :
    (buf : List ℕ) (v : ℕ)
    → ((encode buf v ≡ err too_large) ↔ (max_value < v))
      × ((encode buf v ≡ err short) ↔ ((v ≤ max_value) × (length buf < len v)))
unfolding encode
encode_errors buf v =
    ((λ h. ground arith, λ h. ground arith), (λ h. ground arith, λ h. ground arith))
