-- ===== src/Prelude/Sorted.antt =====
-- Ordered sets of numbers, as lists in ascending order.
use mqproxy.Prelude.Tests.{◌==◌, ==_iff, ltb, if◌then◌else◌, Bool-cases}
use mqproxy.Prelude.Maps.{nat_key}
use mqproxy.Prelude.Sets.{has}
use Prim.Native.Nat.{ℕ}
use mathlib.Core.Path.{◌≡◌, refl, sym, subst}
use mathlib.Core.Logic.{inl, inr}
use mathlib.Core.Bool.{Bool, true, false}
use mathlib.Core.List.{List, [], ◌∷◌}

-- `BTreeSet::insert`.
unfoldable pub insert_sorted : ℕ → List ℕ → List ℕ
insert_sorted s [] = s ∷ []
insert_sorted s (t ∷ ts) =
    let rest = insert_sorted s ts in
    if s == t then t ∷ ts else if ltb s t then s ∷ t ∷ ts else t ∷ rest

unfoldable pub sorted : List ℕ → List ℕ
unfolding insert_sorted
sorted [] = []
sorted (s ∷ ss) = insert_sorted s (sorted ss)

or_has : (b : Bool) {x : Bool} → x ≡ true → (if b then true else x) ≡ true
or_has true e = refl
or_has false e = e

pub has-insert_sorted_self : (s : ℕ) (ts : List ℕ) → has s (insert_sorted s ts) ≡ true
unfolding has insert_sorted
has-insert_sorted_self s [] = rw ((==_iff s s).1 refl) refl
has-insert_sorted_self s (t ∷ ts) = elim (Bool-cases (s == t)) [
  | inl hit ↦ rw hit (rw ((==_iff t s).1 (sym ((==_iff s t).0 hit))) refl)
  | inr miss ↦ elim (Bool-cases (ltb s t)) [
    | inl first ↦ rw (miss, first) (rw ((==_iff s s).1 refl) refl)
    | inr later ↦ rw (miss, later) (or_has (t == s) (has-insert_sorted_self s ts))
  ]
]

pub has-insert_sorted_other :
    (s u : ℕ) (ts : List ℕ) → has s ts ≡ true → has s (insert_sorted u ts) ≡ true
unfolding has insert_sorted
has-insert_sorted_other s u [] e = cc
has-insert_sorted_other s u (t ∷ ts) e = elim (Bool-cases (u == t)) [
  | inl hit ↦ rw hit e
  | inr miss ↦ elim (Bool-cases (ltb u t)) [
    | inl first ↦ rw (miss, first) (or_has (u == s) e)
    | inr later ↦
        rw (miss, later)
          (elim (Bool-cases (t == s)) [
            | inl here ↦ rw here refl
            | inr on ↦ rw on (has-insert_sorted_other s u ts (rw on at e))
          ])
  ]
]

pub has-sorted : (s : ℕ) (ts : List ℕ) → has s ts ≡ true → has s (sorted ts) ≡ true
unfolding has sorted
has-sorted s [] e = cc
has-sorted s (t ∷ ts) e = elim (Bool-cases (t == s)) [
  | inl hit ↦
      subst (λ x. has s (insert_sorted x (sorted ts)) ≡ true) (sym ((==_iff t s).0 hit))
        (has-insert_sorted_self s (sorted ts))
  | inr miss ↦ has-insert_sorted_other s t (sorted ts) (has-sorted s ts (rw miss at e))
]
