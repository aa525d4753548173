-- ===== src/Runtime/TxRing/Fields.antt =====
-- Slices and little-endian numbers: what crates/mq-runtime/src/shard/tx_ring.rs uses of Rust's.
use mqproxy.Prelude.{
  ℕ, zero, suc, ◌+◌, ◌-◌, ◌*◌, ◌/◌, ◌%◌, ◌<◌, ◌^◌, ◌≡◌, refl, List, [], ◌∷◌, ◌++◌, ◌&&◌, true,
  Option, none, some, leb, if◌then◌else◌, length, take, drop, drop-length-append,
  take-length-append, length-append, arith,
}
use native.Mathlib.Numerals.{unary_clauses}

-- `to_le_bytes`, for an integer of `w` bytes.
unfoldable pub to_le : ℕ → ℕ → List ℕ
to_le zero n = []
to_le (suc w) n = n % 256 ∷ to_le w (n / 256)

-- `from_le_bytes`.
unfoldable pub of_le : List ℕ → ℕ
of_le [] = 0
of_le (b ∷ bs) = b + 256 * of_le bs

-- `r[from..to]`, with `none` for a panic.
unfoldable pub slice : List ℕ → ℕ → ℕ → Option (List ℕ)
slice r from to =
    if leb from to && leb to (length r) then some (take (to - from) (drop from r)) else none

pub slice-append :
    (pre part post : List ℕ) (from to : ℕ)
    → length pre ≡ from
    → from + length part ≡ to
    → slice (pre ++ (part ++ post)) from to ≡ some part
unfolding slice
slice-append pre part post from to e f =
    let size : length (pre ++ (part ++ post)) ≡ length pre + (length part + length post) =
      omega (arith, length-append pre (part ++ post), length-append part post) in
    let here : (leb from to && leb to (length (pre ++ (part ++ post)))) ≡ true =
      ground (arith, size, e, f) in
    let len : to - from ≡ length part = omega arith in
    rw (here, len, ← e, drop-length-append pre (part ++ post), take-length-append part post) refl

pub length-to_le : (w n : ℕ) → length (to_le w n) ≡ w
unfolding to_le
length-to_le zero n = refl
length-to_le (suc w) n = omega (arith, length-to_le w (n / 256))

pub of_le-to_le : (w n : ℕ) → n < 256 ^ w → of_le (to_le w n) ≡ n
unfolding of_le to_le
of_le-to_le zero n h = omega arith
of_le-to_le (suc w) n h =
    let small : n < 256 ^ w * 256 = simp unary_clauses at h in
    let rest : of_le (to_le w (n / 256)) ≡ n / 256 = of_le-to_le w (n / 256) (omega arith) in
    omega arith
