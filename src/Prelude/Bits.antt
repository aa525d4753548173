-- ===== src/Prelude/Bits.antt =====
-- Masks on one byte as arithmetic, by tables, and a bitwise or into zeroed low bits.
use Prim.Native.Nat.{
  ℕ, zero, suc, ◌+◌, ◌*◌, ◌/◌, ◌%◌, ◌^◌, ◌≤◌, ◌<◌, max, bit_and, bit_or, digits, bit_or-bitwise,
}
use mathlib.Core.Path.{◌≡◌, refl, ap}
use mathlib.Core.Bool.{Bool, true, false}
use mathlib.Core.Logic.{ite}
use native.Mathlib.Decide.{ℕ_discrete}
use native.Mathlib.Omega.{arith}
use native.Mathlib.Nat.{pow-suc}

module _ (f g : ℕ → ℕ) where
  agree_below : ℕ → Bool
  unfolding ℕ_discrete
  agree_below zero = true
  agree_below (suc n) = ite (ℕ_discrete (f n) (g n)) (agree_below n) false

  agree_below→eq : (n : ℕ) → agree_below n ≡ true → (i : ℕ) → i < n → f i ≡ g i
  unfolding agree_below
  agree_below→eq zero e i h = absurd (omega arith)
  agree_below→eq (suc n) e i h = ground (arith, agree_below→eq n (ground arith) i)

pub low_six : (b : ℕ) → b < 256 → bit_and b 0x3f ≡ b % 64
unfolding agree_below
low_six = agree_below→eq _ _ 256 refl

pub or_0x00 : (b : ℕ) → b < 64 → bit_or b 0x00 ≡ b
unfolding agree_below
or_0x00 = agree_below→eq _ _ 64 refl

pub or_0x40 : (b : ℕ) → b < 64 → bit_or b 0x40 ≡ b + 64
unfolding agree_below
or_0x40 = agree_below→eq _ _ 64 refl

pub or_0x80 : (b : ℕ) → b < 64 → bit_or b 0x80 ≡ b + 128
unfolding agree_below
or_0x80 = agree_below→eq _ _ 64 refl

pub or_0xc0 : (b : ℕ) → b < 64 → bit_or b 0xc0 ≡ b + 192
unfolding agree_below
or_0xc0 = agree_below→eq _ _ 64 refl

-- The law of `bit_or` for the lowest digit, from the definition that the native operation stands for.
abbrev or_digits : ℕ → ℕ → ℕ → ℕ
or_digits n a b = digits (λ b. b) max n a b

or_digits_fuel : (n m a b : ℕ) → a ≤ n → a ≤ m → or_digits n a b ≡ or_digits m a b
or_digits_fuel zero zero a b p q = refl
or_digits_fuel zero (suc m) zero b p q = refl
or_digits_fuel zero (suc m) (suc a) b p q = absurd (omega arith)
or_digits_fuel (suc n) zero zero b p q = refl
or_digits_fuel (suc n) zero (suc a) b p q = absurd (omega arith)
or_digits_fuel (suc n) (suc m) zero b p q = refl
or_digits_fuel (suc n) (suc m) (suc a) b p q =
    omega (arith, or_digits_fuel n m (suc a / 2) (b / 2) (omega arith) (omega arith))

zero-bit_or : (b : ℕ) → bit_or 0 b ≡ b
zero-bit_or b = bit_or-bitwise 0 b

bit_or_step : (a b : ℕ) → bit_or a b ≡ bit_or (a / 2) (b / 2) * 2 + max (a % 2) (b % 2)
bit_or_step zero b = omega (arith, zero-bit_or b, zero-bit_or (b / 2))
bit_or_step (suc a) b = omega (
  arith,
  bit_or-bitwise (suc a) b,
  bit_or-bitwise (suc a / 2) (b / 2),
  or_digits_fuel a (suc a / 2) (suc a / 2) (b / 2) (omega arith) (omega arith),
)

bit_or-zero_fuel : (n a : ℕ) → a ≤ n → bit_or a 0 ≡ a
bit_or-zero_fuel n zero h = refl
bit_or-zero_fuel zero (suc a) h = absurd (omega arith)
bit_or-zero_fuel (suc n) (suc a) h =
    omega (arith, bit_or_step (suc a) 0, bit_or-zero_fuel n (suc a / 2) (omega arith))

pub bit_or-zero : (a : ℕ) → bit_or a 0 ≡ a
bit_or-zero a = bit_or-zero_fuel a a (omega arith)

pow_double : (k : ℕ) → 2 ^ suc k ≡ 2 * 2 ^ k
pow_double k = omega (arith, pow-suc 2 k)

-- A bitwise or with a value that fits the zeroed low bits is a sum.
pub bit_or-shifted : (k x b : ℕ) → b < 2 ^ k → bit_or (x * 2 ^ k) b ≡ x * 2 ^ k + b
bit_or-shifted zero x b h =
    omega (arith, ap (bit_or (x * 1)) {x = b} {y = 0} (omega arith), bit_or-zero (x * 1))
bit_or-shifted (suc k) x b h =
    let e : x * 2 ^ suc k ≡ 2 * (x * 2 ^ k) = omega (arith, ap (◌*◌ x) (pow_double k)) in
    rw e (
      omega (
        arith,
        bit_or_step (2 * (x * 2 ^ k)) b,
        ap (λ (t : ℕ). bit_or t (b / 2)) {x = 2 * (x * 2 ^ k) / 2} {y = x * 2 ^ k} (omega arith),
        bit_or-shifted k x (b / 2) (omega (arith, pow_double k)),
      ))
