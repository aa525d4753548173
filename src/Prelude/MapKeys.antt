-- ===== src/Prelude/MapKeys.antt =====
-- The keys of a map: distinct, and how many there are.
use mqproxy.Prelude.Tests.{Bool-cases}
use mqproxy.Prelude.Lists.{length}
use Prim.Native.Nat.{suc, ◌≤◌, ◌<◌}
use mathlib.Core.Path.{◌≡◌, refl, sym, ap, ◌∙◌}
use mathlib.Core.Logic.{inl, inr}
use mathlib.Core.Bool.{true, false}
use mathlib.Core.Option.{some}
use mathlib.Core.List.{List, [], ◌∷◌, map}
use native.Mathlib.Omega.{arith}
use mqproxy.Prelude.Maps.{Key, lookup, put, erase}
use mqproxy.Prelude.Sets.{has, Distinct}

module _ {K : Type 0} ⦃key : Key K⦄ where
  same_sym : (a b : K) → key.same a b ≡ false → key.same b a ≡ false
  same_sym a b h = elim (Bool-cases (key.same b a)) [
    | inl hit ↦ absurd (contrary (sym ((key.same_iff a b).1 (sym ((key.same_iff b a).0 hit))) ∙ h))
    | inr apart ↦ apart
  ]
    where
      contrary : true ≡ false → ⊥
      contrary e = cc

module _ {K : Type 0} {V : Type 0} ⦃key : Key K⦄ where
  abbrev pub keys : List (K × V) → List K
  keys m = map (λ e. e.0) m

  pub lookup-has : (k : K) (v : V) (m : List (K × V)) → lookup k m ≡ some v → has k (keys m) ≡ true
  unfolding lookup has
  lookup-has k v [] e = cc
  lookup-has k v ((j, w) ∷ m) e = elim (Bool-cases (key.same j k)) [
    | inl hit ↦ rw hit refl
    | inr miss ↦ rw miss (lookup-has k v m (rw miss at e))
  ]

  pub length-put : (k : K) (v : V) (m : List (K × V)) → length (put k v m) ≤ suc (length m)
  unfolding put
  length-put k v [] = omega arith
  length-put k v ((j, w) ∷ m) = elim (Bool-cases (key.same j k)) [
    | inl hit ↦ rw hit (omega arith)
    | inr miss ↦ rw miss (omega (arith, length-put k v m))
  ]

  pub length-erase : (k : K) (m : List (K × V)) → length (erase k m) ≤ length m
  unfolding erase
  length-erase k [] = omega arith
  length-erase k ((j, w) ∷ m) = elim (Bool-cases (key.same j k)) [
    | inl hit ↦ rw hit (omega (arith, length-erase k m))
    | inr miss ↦ rw miss (omega (arith, length-erase k m))
  ]

  pub length-erase_lt :
      (k : K) (v : V) (m : List (K × V)) → lookup k m ≡ some v → length (erase k m) < length m
  unfolding erase lookup
  length-erase_lt k v [] e = cc
  length-erase_lt k v ((j, w) ∷ m) e = elim (Bool-cases (key.same j k)) [
    | inl hit ↦ rw hit (omega (arith, length-erase k m))
    | inr miss ↦ rw miss (omega (arith, length-erase_lt k v m (rw miss at e)))
  ]

  has-put_ne :
      (k : K) (v : V) (i : K) (m : List (K × V))
      → key.same k i ≡ false
      → has i (keys (put k v m)) ≡ has i (keys m)
  unfolding has put
  has-put_ne k v i [] ne = rw ne refl
  has-put_ne k v i ((j, w) ∷ m) ne = elim (Bool-cases (key.same j k)) [
    | inl hit ↦
        let e : j ≡ k = (key.same_iff j k).0 hit in
        let other : key.same j i ≡ false = ap (λ x. key.same x i) e ∙ ne in
        rw hit (rw (ne, other) refl)
    | inr miss ↦ rw miss (rw (has-put_ne k v i m ne) refl)
  ]

  has-erase_none :
      (k i : K) (m : List (K × V)) → has i (keys m) ≡ false → has i (keys (erase k m)) ≡ false
  unfolding has erase
  has-erase_none k i [] h = refl
  has-erase_none k i ((j, w) ∷ m) h = elim (Bool-cases (key.same j i)) [
    | inl hit ↦ absurd (contrary (rw hit at h))
    | inr miss ↦ elim (Bool-cases (key.same j k)) [
      | inl gone ↦ rw gone (has-erase_none k i m (rw miss at h))
      | inr stays ↦ rw stays (rw miss (has-erase_none k i m (rw miss at h)))
    ]
  ]
    where
      contrary : true ≡ false → ⊥
      contrary e = cc

  pub Distinct-put :
      (k : K) (v : V) (m : List (K × V)) → Distinct (keys m) → Distinct (keys (put k v m))
  unfolding put Distinct has
  Distinct-put k v [] d = (refl, tt)
  Distinct-put k v ((j, w) ∷ m) (new, d) = elim (Bool-cases (key.same j k)) [
    | inl hit ↦
        let e : j ≡ k = (key.same_iff j k).0 hit in
        rw hit (sym (ap (λ x. has x (keys m)) e) ∙ new, d)
    | inr miss ↦ rw miss (has-put_ne k v j m (same_sym j k miss) ∙ new, Distinct-put k v m d)
  ]

  pub Distinct-erase : (k : K) (m : List (K × V)) → Distinct (keys m) → Distinct (keys (erase k m))
  unfolding erase Distinct
  Distinct-erase k [] d = tt
  Distinct-erase k ((j, w) ∷ m) (new, d) = elim (Bool-cases (key.same j k)) [
    | inl hit ↦ rw hit (Distinct-erase k m d)
    | inr miss ↦ rw miss (has-erase_none k j m new, Distinct-erase k m d)
  ]
