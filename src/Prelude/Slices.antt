-- ===== src/Prelude/Slices.antt =====
-- Slices of slices: how `take` and `drop` pass over one another and over `++`.
use mqproxy.Prelude.Lists.{length, take, drop}
use Prim.Native.Nat.{ℕ, zero, suc, ◌+◌, ◌-◌, ◌≤◌}
use mathlib.Core.Path.{◌≡◌, refl, ap}
use mathlib.Core.List.{List, [], ◌∷◌, ◌++◌}
use native.Mathlib.Omega.{arith}

module _ {ℓ} {A : Type ℓ} where
  pub take_nil : (n : ℕ) → take {A = A} n [] ≡ []
  take_nil zero = refl
  take_nil (suc n) = refl

  pub drop_nil : (n : ℕ) → drop {A = A} n [] ≡ []
  drop_nil zero = refl
  drop_nil (suc n) = refl

  pub drop-drop : (i j : ℕ) (xs : List A) → drop j (drop i xs) ≡ drop (i + j) xs
  drop-drop zero j xs = let q : 0 + j ≡ j = omega arith in rw q refl
  drop-drop (suc i) j [] = rw (drop_nil j, drop_nil (suc i + j)) refl
  drop-drop (suc i) j (x ∷ xs) =
      let q : suc i + j ≡ suc (i + j) = omega arith in rw q (drop-drop i j xs)

  pub drop-take : (n i : ℕ) (xs : List A) → drop n (take i xs) ≡ take (i - n) (drop n xs)
  drop-take zero i xs = let q : i - 0 ≡ i = omega arith in rw q refl
  drop-take (suc n) i [] = rw (take_nil i, take_nil (i - suc n)) refl
  drop-take (suc n) zero (x ∷ xs) = let q : 0 - suc n ≡ 0 = omega arith in rw q refl
  drop-take (suc n) (suc i) (x ∷ xs) =
      let q : suc i - suc n ≡ i - n = omega arith in rw q (drop-take n i xs)

  pub drop-append_le :
      (n : ℕ) (xs ys : List A) → n ≤ length xs → drop n (xs ++ ys) ≡ drop n xs ++ ys
  drop-append_le zero xs ys h = refl
  drop-append_le (suc n) [] ys h = absurd (omega arith)
  drop-append_le (suc n) (x ∷ xs) ys h = drop-append_le n xs ys (omega arith)

  pub drop_all : (n : ℕ) (xs : List A) → length xs ≤ n → drop n xs ≡ []
  drop_all zero [] h = refl
  drop_all zero (x ∷ xs) h = absurd (omega arith)
  drop_all (suc n) [] h = refl
  drop_all (suc n) (x ∷ xs) h = drop_all n xs (omega arith)

  pub take_all : (n : ℕ) (xs : List A) → length xs ≤ n → take n xs ≡ xs
  take_all n [] h = take_nil n
  take_all zero (x ∷ xs) h = absurd (omega arith)
  take_all (suc n) (x ∷ xs) h = ap (◌∷◌ x) (take_all n xs (omega arith))

  pub take-append_le : (n : ℕ) (xs ys : List A) → n ≤ length xs → take n (xs ++ ys) ≡ take n xs
  take-append_le zero xs ys h = refl
  take-append_le (suc n) [] ys h = absurd (omega arith)
  take-append_le (suc n) (x ∷ xs) ys h = ap (◌∷◌ x) (take-append_le n xs ys (omega arith))

  pub take-take_le : (n m : ℕ) (xs : List A) → n ≤ m → take n (take m xs) ≡ take n xs
  take-take_le zero m xs h = refl
  take-take_le (suc n) zero xs h = absurd (omega arith)
  take-take_le (suc n) (suc m) [] h = refl
  take-take_le (suc n) (suc m) (x ∷ xs) h = ap (◌∷◌ x) (take-take_le n m xs (omega arith))

  pub take-add : (n m : ℕ) (xs : List A) → take (n + m) xs ≡ take n xs ++ take m (drop n xs)
  take-add zero m xs = let q : 0 + m ≡ m = omega arith in rw q refl
  take-add (suc n) m [] = rw (take_nil (suc n + m), take_nil m) refl
  take-add (suc n) m (x ∷ xs) =
      let q : suc n + m ≡ suc (n + m) = omega arith in rw q (ap (◌∷◌ x) (take-add n m xs))
