-- ===== src/Prelude/ByteLaws.antt =====
-- What the searches in byte strings find, and comparison without regard to case.
use mqproxy.Prelude.Tests.{◌==◌, Bool-cases}
use mqproxy.Prelude.Lists.{All}
use mqproxy.Prelude.Bytes.{find_byte, all, any, next, lower, same_bytes, same_ignoring_case}
use Prim.Native.Nat.{ℕ}
use mathlib.Core.Path.{◌≡◌, refl, ap}
use mathlib.Core.Logic.{inl, inr, ◌↔◌}
use mathlib.Core.Bool.{Bool, true, false, ◌&&◌, ◌||◌}
use mathlib.Core.Option.{Option, none, some}
use mathlib.Core.List.{List, [], ◌∷◌, map}
use native.Mathlib.Omega.{arith}

or-eq_false : (a b : Bool) → (a || b) ≡ false → (a ≡ false) × (b ≡ false)
or-eq_false true b h = cc
or-eq_false false b h = (refl, h)

and-eq_true : (a b : Bool) → (a && b) ≡ true → (a ≡ true) × (b ≡ true)
and-eq_true true b h = (refl, h)
and-eq_true false b h = cc

pub any-eq_false :
    (test : ℕ → Bool) (xs : List ℕ) → any test xs ≡ false → All (λ c. test c ≡ false) xs
unfolding any
any-eq_false test [] h = tt
any-eq_false test (x ∷ xs) h =
    let (here, rest) = or-eq_false (test x) (any test xs) h in (here, any-eq_false test xs rest)

pub any_of_All :
    (test : ℕ → Bool) (xs : List ℕ) → All (λ c. test c ≡ false) xs → any test xs ≡ false
unfolding any
any_of_All test [] h = refl
any_of_All test (x ∷ xs) h = rw h.0 (any_of_All test xs h.1)

pub all-eq_true : (test : ℕ → Bool) (xs : List ℕ) → all test xs ≡ true → All (λ c. test c ≡ true) xs
unfolding all
all-eq_true test [] h = tt
all-eq_true test (x ∷ xs) h =
    let (here, rest) = and-eq_true (test x) (all test xs) h in (here, all-eq_true test xs rest)

pub any-find_byte : (xs : List ℕ) (b i : ℕ) → find_byte xs b ≡ some i → any (λ c. c == b) xs ≡ true
unfolding any find_byte
any-find_byte [] b i h = cc
any-find_byte (x ∷ xs) b i h = elim (Bool-cases (x == b)) [
  | inl hit ↦ rw hit refl
  | inr miss ↦ rw miss (later (find_byte xs b) (λ j e. any-find_byte xs b j e) refl (rw miss at h))
]
  where
    later :
        (o : Option ℕ)
        → ((j : ℕ) → find_byte xs b ≡ some j → any (λ c. c == b) xs ≡ true)
        → find_byte xs b ≡ o
        → next o ≡ some i
        → any (λ c. c == b) xs ≡ true
    later none f e k = cc
    later (some j) f e k = f j e

-- Comparison without regard to case is equality of the lower-cased strings.
pub same_ignoring_case-lower :
    (xs ys : List ℕ) → same_ignoring_case xs ys ≡ same_bytes (map lower xs) (map lower ys)
unfolding same_ignoring_case same_bytes
same_ignoring_case-lower [] [] = refl
same_ignoring_case-lower [] (y ∷ ys) = refl
same_ignoring_case-lower (x ∷ xs) [] = refl
same_ignoring_case-lower (x ∷ xs) (y ∷ ys) =
    ap (◌&&◌ (lower x == lower y)) (same_ignoring_case-lower xs ys)

pub same_bytes_iff : (xs ys : List ℕ) → (same_bytes xs ys ≡ true) ↔ (xs ≡ ys)
unfolding same_bytes
same_bytes_iff [] [] = (λ h. refl, λ h. refl)
same_bytes_iff [] (y ∷ ys) = (λ h. cc, λ h. cc)
same_bytes_iff (x ∷ xs) [] = (λ h. cc, λ h. cc)
same_bytes_iff (x ∷ xs) (y ∷ ys) = ground (arith, same_bytes_iff xs ys)
