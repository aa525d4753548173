-- ===== src/Client/Mitm/Policy/Laws.antt =====
-- The ignored hosts of crates/mq-proxy/src/client/mitm/policy.rs against a scan of all entries, and what the
-- policy intercepts.
use mqproxy.Prelude.{
  ℕ, ◌+◌, ◌-◌, ◌≡◌, ◌↔◌, refl, sym, ap, subst, ◌∙◌, List, [], ◌∷◌, ◌++◌, Bool, true, false, ◌&&◌,
  ◌||◌, leb, ◌==◌, ==_iff, length, take, drop, arith, Bool-cases, inl, inr, length-append,
  take-append-drop, drop-length-append, take-length-append, append_assoc,
}
use mqproxy.Prelude.Bytes.{same_bytes}
use mqproxy.Prelude.ByteLaws.{same_bytes_iff}
use mqproxy.Prelude.Sets.{has}
use mqproxy.Client.Mitm.Policy.{
  bytes_key, dot, ends_with_dot, strip_suffix, is_under, parents, any_has, IgnoreHosts, matches,
}

ends_with_dot-append : (p : List ℕ) → ends_with_dot (p ++ (dot ∷ [])) ≡ true
unfolding ends_with_dot
ends_with_dot-append [] = refl
ends_with_dot-append (c ∷ []) = refl
ends_with_dot-append (c ∷ d ∷ p) = ends_with_dot-append (d ∷ p)

ends_with_dot-split : (s : List ℕ) → ends_with_dot s ≡ true → (p : List ℕ) × (s ≡ p ++ (dot ∷ []))
unfolding ends_with_dot
ends_with_dot-split [] e = cc
ends_with_dot-split (c ∷ []) e = ([], ap (λ x. x ∷ []) ((==_iff c dot).0 e))
ends_with_dot-split (c ∷ d ∷ s) e =
    let (p, q) = ends_with_dot-split (d ∷ s) e in (c ∷ p, ap (◌∷◌ c) q)

-- A name is under a base exactly when it is some labels, a dot and the base.
pub is_under_iff :
    (n base : List ℕ) → (is_under n base ≡ true) ↔ ((p : List ℕ) × (n ≡ p ++ (dot ∷ base)))
unfolding is_under strip_suffix
is_under_iff n base = (forward, backward)
  where
    k : ℕ
    k = length n - length base

    forward : is_under n base ≡ true → (p : List ℕ) × (n ≡ p ++ (dot ∷ base))
    forward e = elim (Bool-cases (leb (length base) (length n) && same_bytes (drop k n) base)) [
      | inr other ↦ absurd (no_suffix (rw (other, is_under) at e))
      | inl fits ↦
          let (p, q) = ends_with_dot-split (take k n) (rw (fits, is_under) at e) in
          let same : same_bytes (drop k n) base ≡ true = ground (arith, fits) in
          let tail : drop k n ≡ base = (same_bytes_iff (drop k n) base).0 same in
          (
            p,
            sym (take-append-drop k n)
                ∙ ap (λ x. x ++ drop k n) q
                ∙ append_assoc p (dot ∷ []) (drop k n)
                ∙ ap (λ x. p ++ (dot ∷ x)) tail,
          )
    ]
      where
        no_suffix : false ≡ true → ⊥
        no_suffix e = cc

    backward : (p : List ℕ) × (n ≡ p ++ (dot ∷ base)) → is_under n base ≡ true
    backward (p, e) =
        let whole : n ≡ (p ++ (dot ∷ [])) ++ base = e ∙ sym (append_assoc p (dot ∷ []) base) in
        let size : length n ≡ length (p ++ (dot ∷ [])) + length base =
          ap length whole ∙ length-append (p ++ (dot ∷ [])) base in
        let at : k ≡ length (p ++ (dot ∷ [])) = omega (arith, size) in
        let tail : drop k n ≡ base = rw (at, whole) (drop-length-append (p ++ (dot ∷ [])) base) in
        let front : take k n ≡ p ++ (dot ∷ []) =
          rw (at, whole) (take-length-append (p ++ (dot ∷ [])) base) in
        let fits : leb (length base) (length n) ≡ true = ground (arith, size) in
        let same : same_bytes (drop k n) base ≡ true = (same_bytes_iff (drop k n) base).1 tail in
        let test : (leb (length base) (length n) && same_bytes (drop k n) base) ≡ true =
          rw fits same in
        rw (test, is_under) (rw front (ends_with_dot-append p))

-- The scan that `matches` stands for: is the name under some entry?
unfoldable pub under_any : List (List ℕ) → List ℕ → Bool
under_any [] n = false
under_any (b ∷ suffix) n = is_under n b || under_any suffix n

abbrev Splits : List (List ℕ) → List ℕ → Type 0
Splits suffix n = (p : List ℕ) × (b : List ℕ) × (n ≡ p ++ (dot ∷ b)) × (has b suffix ≡ true)

has_cons : (b j : List ℕ) (s : List (List ℕ)) → has b s ≡ true → has b (j ∷ s) ≡ true
unfolding has
has_cons b j s h = elim (Bool-cases (same_bytes j b)) [
  | inl hit ↦ rw hit refl
  | inr miss ↦ rw miss h
]

or_right : (a b : Bool) → b ≡ true → (a || b) ≡ true
or_right true b h = refl
or_right false b h = h

under_any-Splits :
    (suffix : List (List ℕ)) (n : List ℕ) → under_any suffix n ≡ true → Splits suffix n
unfolding under_any has
under_any-Splits [] n e = cc
under_any-Splits (b ∷ suffix) n e = elim (Bool-cases (is_under n b)) [
  | inl hit ↦
      let (p, q) = (is_under_iff n b).0 hit in
      let self : same_bytes b b ≡ true = (same_bytes_iff b b).1 refl in (p, b, q, rw self refl)
  | inr miss ↦
      let (p, b', q, h) = under_any-Splits suffix n (rw miss at e) in
      (p, b', q, has_cons b' b suffix h)
]

Splits-under_any :
    (suffix : List (List ℕ)) (n p b : List ℕ)
    → n ≡ p ++ (dot ∷ b)
    → has b suffix ≡ true
    → under_any suffix n ≡ true
unfolding under_any has
Splits-under_any [] n p b q h = cc
Splits-under_any (j ∷ suffix) n p b q h = elim (Bool-cases (same_bytes j b)) [
  | inl hit ↦
      let e : j ≡ b = (same_bytes_iff j b).0 hit in
      let here : is_under n j ≡ true =
        (is_under_iff n j).1 (p, q ∙ ap (λ x. p ++ (dot ∷ x)) (sym e)) in
      rw here refl
  | inr miss ↦ or_right (is_under n j) _ (Splits-under_any suffix n p b q (rw miss at h))
]

parents-Splits :
    (suffix : List (List ℕ)) (n : List ℕ) → any_has suffix (parents n) ≡ true → Splits suffix n
unfolding parents any_has
parents-Splits suffix [] e = cc
parents-Splits suffix (c ∷ n) e = elim (Bool-cases (c == dot)) [
  | inl at_dot ↦ elim (Bool-cases (has n suffix)) [
    | inl hit ↦ ([], n, ap (λ x. x ∷ n) ((==_iff c dot).0 at_dot), hit)
    | inr miss ↦
        let (p, b, q, h) = parents-Splits suffix n (rw (at_dot, miss) at e) in
        (c ∷ p, b, ap (◌∷◌ c) q, h)
  ]
  | inr other ↦
      let (p, b, q, h) = parents-Splits suffix n (rw other at e) in (c ∷ p, b, ap (◌∷◌ c) q, h)
]

Splits-parents :
    (suffix : List (List ℕ)) (p b : List ℕ)
    → has b suffix ≡ true
    → any_has suffix (parents (p ++ (dot ∷ b))) ≡ true
unfolding parents any_has
Splits-parents suffix [] b h = rw h refl
Splits-parents suffix (c ∷ p) b h = elim (Bool-cases (c == dot)) [
  | inl at_dot ↦ rw at_dot (or_right (has (p ++ (dot ∷ b)) suffix) _ (Splits-parents suffix p b h))
  | inr other ↦ rw other (Splits-parents suffix p b h)
]

same_Bool : (a b : Bool) → (a ≡ true → b ≡ true) → (b ≡ true → a ≡ true) → a ≡ b
same_Bool true true f g = refl
same_Bool true false f g = sym (f refl)
same_Bool false true f g = g refl
same_Bool false false f g = refl

-- The look-up of a name's parent domains, one for each of its labels, finds what a scan of all entries finds:
-- a name is ignored exactly when it is an exact entry or is strictly under a leading-dot entry.
pub matches_scan :
    (h : IgnoreHosts) (n : List ℕ) → matches h n ≡ (has n h.exact || under_any h.suffix n)
unfolding matches
matches_scan h n =
    ap (λ b. has n h.exact || b)
      (same_Bool (any_has h.suffix (parents n)) (under_any h.suffix n)
        (λ e. let (p, b, q, k) = parents-Splits h.suffix n e in Splits-under_any h.suffix n p b q k)
        (λ e.
          let (p, b, q, k) = under_any-Splits h.suffix n e in
          subst (λ x. any_has h.suffix (parents x) ≡ true) (sym q) (Splits-parents h.suffix p b k)))
