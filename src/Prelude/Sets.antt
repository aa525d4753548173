-- ===== src/Prelude/Sets.antt =====
-- Hash sets as lists without repetition, over keys with an equality test.
use mqproxy.Prelude.Tests.{if◌then◌else◌, Bool-cases}
use mqproxy.Prelude.Maps.{Key}
use mathlib.Core.Path.{◌≡◌, refl, sym, ap, ◌∙◌}
use mathlib.Core.Logic.{inl, inr}
use mathlib.Core.Bool.{Bool, true, false}
use mathlib.Core.List.{List, [], ◌∷◌, ◌++◌}

module _ {K : Type 0} ⦃key : Key K⦄ where
  unfoldable pub has : K → List K → Bool
  has k [] = false
  has k (j ∷ s) = let rest = has k s in if key.same j k then true else rest

  unfoldable pub remove : K → List K → List K
  remove k [] = []
  remove k (j ∷ s) = let rest = remove k s in if key.same j k then rest else j ∷ rest

  unfoldable pub Distinct : List K → Type 0
  Distinct [] = Unit {0}
  Distinct (k ∷ s) = (has k s ≡ false) × Distinct s

  pub has-remove_self : (k : K) (s : List K) → has k (remove k s) ≡ false
  unfolding has remove
  has-remove_self k [] = refl
  has-remove_self k (j ∷ s) = elim (Bool-cases (key.same j k)) [
    | inl hit ↦ rw hit (has-remove_self k s)
    | inr miss ↦ rw (miss, miss) (has-remove_self k s)
  ]

  pub has-remove_ne : (k i : K) (s : List K) → key.same k i ≡ false → has i (remove k s) ≡ has i s
  unfolding has remove
  has-remove_ne k i [] ne = refl
  has-remove_ne k i (j ∷ s) ne = elim (Bool-cases (key.same j k)) [
    | inl hit ↦
        let e : j ≡ k = (key.same_iff j k).0 hit in rw hit (rw (e, ne) (has-remove_ne k i s ne))
    | inr miss ↦ rw miss (rw (has-remove_ne k i s ne) refl)
  ]

  -- A new key at the end, or in front, is the same to `has`.
  pub has-append_last : (k i : K) (s : List K) → has i (s ++ (k ∷ [])) ≡ has i (k ∷ s)
  unfolding has
  has-append_last k i [] = refl
  has-append_last k i (j ∷ s) = elim (Bool-cases (key.same j i)) [
    | inl hit ↦ elim (Bool-cases (key.same k i)) [
      | inl too ↦ rw (hit, too) refl
      | inr not_too ↦ rw (hit, not_too) refl
    ]
    | inr miss ↦ rw miss (has-append_last k i s)
  ]

  pub Distinct-append_last :
      (k : K) (s : List K) → has k s ≡ false → Distinct s → Distinct (s ++ (k ∷ []))
  unfolding has Distinct
  Distinct-append_last k [] new d = (refl, tt)
  Distinct-append_last k (j ∷ s) new (fresh, d) = elim (Bool-cases (key.same j k)) [
    | inl hit ↦ absurd (no_hit (sym (ap (λ b. if b then true else has k s) hit) ∙ new))
    | inr miss ↦ (
      has-append_last k j s ∙ rw (other miss) fresh,
      Distinct-append_last k s (sym (ap (λ b. if b then true else has k s) miss) ∙ new) d,
    )
  ]
    where
      no_hit : true ≡ false → ⊥
      no_hit e = cc

      other : key.same j k ≡ false → key.same k j ≡ false
      other miss = elim (Bool-cases (key.same k j)) [
        | inl hit ↦
            absurd (no_hit (sym ((key.same_iff j k).1 (sym ((key.same_iff k j).0 hit))) ∙ miss))
        | inr apart ↦ apart
      ]
