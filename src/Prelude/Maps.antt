-- ===== src/Prelude/Maps.antt =====
-- Maps as lists of entries, over keys with an equality test: what the code's hash maps and ordered maps do.
use mqproxy.Prelude.Tests.{◌==◌, ==_iff, if◌then◌else◌, Bool-cases}
use mqproxy.Prelude.Lists.{All}
use Prim.Native.Nat.{ℕ, ◌+◌, ◌≤◌}
use mathlib.Core.Path.{◌≡◌, refl, sym, subst, ◌∙◌}
use mathlib.Core.Logic.{◌≢◌, ◌↔◌, inl, inr}
use mathlib.Core.Bool.{Bool, true}
use mathlib.Core.Option.{Option, none, some}
use mathlib.Core.List.{List, [], ◌∷◌}
use native.Mathlib.Omega.{arith}

-- An equality test that is right.
pub record Key (K : Type 0) : Type 0 where
  pub same : K → K → Bool
  pub same_iff : (a b : K) → (same a b ≡ true) ↔ (a ≡ b)

instance abbrev pub nat_key : Key ℕ
nat_key = record { same = ◌==◌; same_iff = ==_iff }

abbrev pub weigh? {ℓ} : {V : Type ℓ} → (V → ℕ) → Option V → ℕ
weigh? f none = 0
weigh? f (some v) = f v

module _ {K : Type 0} {V : Type 0} ⦃key : Key K⦄ where
  unfoldable pub lookup : K → List (K × V) → Option V
  lookup k [] = none
  lookup k ((j, v) ∷ m) = let rest = lookup k m in if key.same j k then some v else rest

  -- An entry is replaced in its place, or added at the end.
  unfoldable pub put : K → V → List (K × V) → List (K × V)
  put k v [] = (k, v) ∷ []
  put k v ((j, w) ∷ m) = let rest = put k v m in if key.same j k then (k, v) ∷ m else (j, w) ∷ rest

  unfoldable pub erase : K → List (K × V) → List (K × V)
  erase k [] = []
  erase k ((j, v) ∷ m) = let rest = erase k m in if key.same j k then rest else (j, v) ∷ rest

  pub lookup-put_self : (k : K) (v : V) (m : List (K × V)) → lookup k (put k v m) ≡ some v
  unfolding lookup put
  lookup-put_self k v [] = rw ((key.same_iff k k).1 refl) refl
  lookup-put_self k v ((j, w) ∷ m) = elim (Bool-cases (key.same j k)) [
    | inl hit ↦ rw (hit, (key.same_iff k k).1 refl) refl
    | inr miss ↦ rw (miss, miss) (lookup-put_self k v m)
  ]

  pub lookup-put_ne :
      (k : K) (v : V) (j : K) (m : List (K × V)) → k ≢ j → lookup j (put k v m) ≡ lookup j m
  unfolding lookup put
  lookup-put_ne k v j [] ne = elim (Bool-cases (key.same k j)) [
    | inl hit ↦ absurd (ne ((key.same_iff k j).0 hit))
    | inr miss ↦ rw miss refl
  ]
  lookup-put_ne k v j ((i, w) ∷ m) ne = elim (Bool-cases (key.same i k)) [
    | inl hit ↦
        let e : i ≡ k = (key.same_iff i k).0 hit in
        elim (Bool-cases (key.same k j)) [
          | inl hit' ↦ absurd (ne ((key.same_iff k j).0 hit'))
          | inr miss ↦ rw hit (rw (e, miss) refl)
        ]
    | inr other ↦ elim (Bool-cases (key.same i j)) [
      | inl here ↦ rw (other, here) refl
      | inr on ↦ rw (other, on) (lookup-put_ne k v j m ne)
    ]
  ]

  pub lookup-erase_self : (k : K) (m : List (K × V)) → lookup k (erase k m) ≡ none
  unfolding lookup erase
  lookup-erase_self k [] = refl
  lookup-erase_self k ((j, v) ∷ m) = elim (Bool-cases (key.same j k)) [
    | inl hit ↦ rw hit (lookup-erase_self k m)
    | inr miss ↦ rw (miss, miss) (lookup-erase_self k m)
  ]

  pub lookup-erase_ne : (k j : K) (m : List (K × V)) → k ≢ j → lookup j (erase k m) ≡ lookup j m
  unfolding lookup erase
  lookup-erase_ne k j [] ne = refl
  lookup-erase_ne k j ((i, v) ∷ m) ne = elim (Bool-cases (key.same i k)) [
    | inl hit ↦ elim (Bool-cases (key.same i j)) [
      | inl here ↦ absurd (ne (sym ((key.same_iff i k).0 hit) ∙ (key.same_iff i j).0 here))
      | inr on ↦ rw (hit, on) (lookup-erase_ne k j m ne)
    ]
    | inr miss ↦ elim (Bool-cases (key.same i j)) [
      | inl here ↦ rw (miss, here) refl
      | inr on ↦ rw (miss, on) (lookup-erase_ne k j m ne)
    ]
  ]

  pub All-put {κ} :
      (P : K × V → Type κ) (k : K) (v : V) (m : List (K × V))
      → All P m
      → P (k, v)
      → All P (put k v m)
  unfolding put
  All-put P k v [] all p = (p, tt)
  All-put P k v ((j, w) ∷ m) all p = elim (Bool-cases (key.same j k)) [
    | inl hit ↦ rw hit (p, all.1)
    | inr miss ↦ rw miss (all.0, All-put P k v m all.1 p)
  ]

  pub All-erase {κ} : (P : K × V → Type κ) (k : K) (m : List (K × V)) → All P m → All P (erase k m)
  unfolding erase
  All-erase P k [] all = tt
  All-erase P k ((j, w) ∷ m) all = elim (Bool-cases (key.same j k)) [
    | inl hit ↦ rw hit (All-erase P k m all.1)
    | inr miss ↦ rw miss (all.0, All-erase P k m all.1)
  ]

  pub All-lookup {κ} :
      (P : K × V → Type κ) (k : K) (v : V) (m : List (K × V))
      → All P m
      → lookup k m ≡ some v
      → P (k, v)
  unfolding lookup
  All-lookup P k v [] all e = cc
  All-lookup P k v ((j, w) ∷ m) all e = elim (Bool-cases (key.same j k)) [
    | inl hit ↦
        let at : ◌≡◌ {A = Option V} (some w) (some v) = rw hit at e in
        let same : w ≡ v = cc in
        let here : j ≡ k = (key.same_iff j k).0 hit in subst P (λ i. (here i, same i)) all.0
    | inr miss ↦ All-lookup P k v m all.1 (rw miss at e)
  ]

  -- The sum of a number over the entries.
  unfoldable pub weigh : (V → ℕ) → List (K × V) → ℕ
  weigh f [] = 0
  weigh f ((k, v) ∷ m) = f v + weigh f m

  pub weigh-put :
      (f : V → ℕ) (k : K) (v : V) (m : List (K × V))
      → weigh f (put k v m) + weigh? f (lookup k m) ≡ weigh f m + f v
  unfolding weigh put lookup
  weigh-put f k v [] = omega arith
  weigh-put f k v ((j, w) ∷ m) = elim (Bool-cases (key.same j k)) [
    | inl hit ↦ rw hit (omega arith)
    | inr miss ↦ rw miss (omega (arith, weigh-put f k v m))
  ]

  pub weigh-lookup_le : (f : V → ℕ) (k : K) (m : List (K × V)) → weigh? f (lookup k m) ≤ weigh f m
  unfolding weigh lookup
  weigh-lookup_le f k [] = omega arith
  weigh-lookup_le f k ((j, w) ∷ m) = elim (Bool-cases (key.same j k)) [
    | inl hit ↦ rw hit (omega arith)
    | inr miss ↦ rw miss (omega (arith, weigh-lookup_le f k m))
  ]
