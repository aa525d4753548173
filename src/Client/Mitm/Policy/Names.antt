-- ===== src/Client/Mitm/Policy/Names.antt =====
-- The canonical names of crates/mq-proxy/src/client/mitm/policy.rs, and which flows are intercepted.
use mqproxy.Prelude.{
  ℕ, ◌≤◌, ◌<◌, ◌≡◌, ◌↔◌, refl, sym, ap, subst, ◌∙◌, List, [], ◌∷◌, Bool, true, false, not, ◌&&◌,
  ◌||◌, Option, none, some, ltb, leb, ◌==◌, ==_iff, length, map, arith, All, Bool-cases, inl, inr,
}
use Prim.Native.Nat.{suc}
use mathlib.Core.Path.{ap₂}
use mqproxy.Prelude.Bytes.{all, is_empty, lower}
use mqproxy.Prelude.Sets.{has}
use mqproxy.Client.Mitm.Policy.{
  bytes_key, dot, ends_with_dot, without_dot, on_first, labels, is_label_byte, is_label, are_labels,
  canonical_of, canonical, matches, covers, MitmPolicy, mitm, route_name, route,
}
use mqproxy.Client.Mitm.Policy.Laws.{matches_scan, under_any}

lower-lower : (c : ℕ) → lower (lower c) ≡ lower c
lower-lower c = ground arith

lowered_again : (s : List ℕ) → map lower (map lower s) ≡ map lower s
lowered_again [] = refl
lowered_again (c ∷ s) = ap₂ ◌∷◌ (lower-lower c) (lowered_again s)

length_lowered : (s : List ℕ) → length (map lower s) ≡ length s
length_lowered [] = refl
length_lowered (c ∷ s) = ap suc (length_lowered s)

and_left : (a b : Bool) → (a && b) ≡ true → a ≡ true
and_left true b h = refl
and_left false b h = cc

and_right : (a b : Bool) → (a && b) ≡ true → b ≡ true
and_right true b h = h
and_right false b h = cc

-- A name that ends with a dot has an empty last label.
dot_last :
    (s : List ℕ)
    → ends_with_dot s ≡ true
    → (l : List ℕ) × (ls : List (List ℕ)) × (labels s ≡ l ∷ ls) × (are_labels ls ≡ false)
unfolding ends_with_dot labels are_labels
dot_last [] e = cc
dot_last (c ∷ []) e = ([], [] ∷ [], rw e refl, refl)
dot_last (c ∷ d ∷ s) e =
    let (l, ls, q, bad) = dot_last (d ∷ s) e in
    elim (Bool-cases (c == dot)) [
      | inl hit ↦ ([], l ∷ ls, rw hit (ap (◌∷◌ []) q), or_false (is_label l) _ bad)
      | inr miss ↦ (c ∷ l, ls, rw miss (ap (on_first c) q), bad)
    ]
  where
    or_false : (a b : Bool) → b ≡ false → (a && b) ≡ false
    or_false true b h = h
    or_false false b h = refl

no_dot_last : (s : List ℕ) → are_labels (labels s) ≡ true → ends_with_dot s ≡ false
unfolding are_labels
no_dot_last s e = elim (Bool-cases (ends_with_dot s)) [
  | inr fine ↦ fine
  | inl hit ↦
      let (l, ls, q, bad) = dot_last s hit in
      let all_good : (is_label l && are_labels ls) ≡ true = sym (ap are_labels q) ∙ e in
      let good : are_labels ls ≡ true = and_right (is_label l) (are_labels ls) all_good in
      absurd (contrary (sym bad ∙ good))
]
  where
    contrary : false ≡ true → ⊥
    contrary e = cc

-- Labels of label bytes, empty ones allowed.
unfoldable of_label_bytes : List (List ℕ) → Bool
of_label_bytes [] = true
of_label_bytes (l ∷ ls) = all is_label_byte l && of_label_bytes ls

are_labels-bytes : (ls : List (List ℕ)) → are_labels ls ≡ true → of_label_bytes ls ≡ true
unfolding are_labels of_label_bytes
are_labels-bytes [] e = refl
are_labels-bytes (l ∷ ls) e =
    let rest = are_labels-bytes ls (and_right (is_label l) _ e) in
    let here : all is_label_byte l ≡ true =
      and_right (leb 1 (length l) && leb (length l) 63) _ (and_left (is_label l) _ e) in
    rw here rest

label_byte_small : (c : ℕ) → is_label_byte c ≡ true → c < 128
label_byte_small c h = ground (arith, h)

labels-ascii : (s : List ℕ) → of_label_bytes (labels s) ≡ true → All (λ c. c < 128) s
unfolding labels of_label_bytes all
labels-ascii [] e = tt
labels-ascii (c ∷ s) e = elim (Bool-cases (c == dot)) [
  | inl hit ↦
      let q : c ≡ dot = (==_iff c dot).0 hit in (omega (arith, q), labels-ascii s (rw hit at e))
  | inr miss ↦ by_labels (labels s) refl (λ h. labels-ascii s h) (rw miss at e)
]
  where
    by_labels :
        (ls : List (List ℕ))
        → labels s ≡ ls
        → (of_label_bytes (labels s) ≡ true → All (λ c. c < 128) s)
        → of_label_bytes (on_first c ls) ≡ true
        → (c < 128) × All (λ c. c < 128) s
    by_labels [] q f h =
        (label_byte_small c (and_left (is_label_byte c) true (and_left _ true h)), f (rw q refl))
    by_labels (l ∷ ls) q f h =
        let first = and_left (is_label_byte c && all is_label_byte l) (of_label_bytes ls) h in
        let others = and_right (is_label_byte c && all is_label_byte l) (of_label_bytes ls) h in
        let tail : all is_label_byte l ≡ true = and_right (is_label_byte c) _ first in
        (label_byte_small c (and_left (is_label_byte c) _ first), f (rw (q, tail) others))

-- What `canonical` checked of a name that it made.
record Checked (is_ip : List ℕ → Bool) (s : List ℕ) : Type 0 where
  filled : is_empty s ≡ false
  short : length s ≤ 253
  labelled : are_labels (labels s) ≡ true
  no_ip : is_ip s ≡ false
  lowered : map lower s ≡ s

is_empty-map : (b : List ℕ) → is_empty (map lower b) ≡ is_empty b
unfolding is_empty
is_empty-map [] = refl
is_empty-map (c ∷ b) = refl

module _ (is_utf8 is_ip : List ℕ → Bool) where
  canonical_of-Checked : (b s : List ℕ) → canonical_of is_utf8 is_ip b ≡ some s → Checked is_ip s
  unfolding canonical_of
  canonical_of-Checked b s e = elim (Bool-cases (is_empty b || ltb 253 (length b))) [
    | inl bad ↦ absurd (no_name (rw bad at e))
    | inr sized ↦ elim (Bool-cases (is_utf8 b)) [
      | inr bad ↦ absurd (no_name (rw (sized, bad) at e))
      | inl utf8 ↦
          elim (Bool-cases (not (are_labels (labels (map lower b))) || is_ip (map lower b))) [
            | inl bad ↦ absurd (no_name (rw (sized, utf8, bad) at e))
            | inr good ↦
                let e' : ◌≡◌ {A = Option (List ℕ)} (some (map lower b)) (some s) =
                  rw (sized, utf8, good) at e in
                let q : map lower b ≡ s = cc in
                subst (Checked is_ip) q (record {
                  filled = is_empty-map b ∙ ground (arith, sized);
                  short = ground (arith, sized, length_lowered b);
                  labelled = ground (arith, good);
                  no_ip = ground (arith, good);
                  lowered = lowered_again b;
                })
          ]
    ]
  ]
    where
      no_name : ◌≡◌ {A = Option (List ℕ)} none (some s) → ⊥
      no_name e = cc

  Checked-canonical :
      (s : List ℕ) → Checked is_ip s → is_utf8 s ≡ true → canonical is_utf8 is_ip s ≡ some s
  unfolding canonical canonical_of without_dot
  Checked-canonical s k utf8 =
      let sized : (is_empty s || ltb 253 (length s)) ≡ false = ground (arith, k.filled, k.short) in
      let good : (not (are_labels (labels s)) || is_ip s) ≡ false =
        ground (arith, k.labelled, k.no_ip) in
      rw (no_dot_last s k.labelled) (rw (sized, utf8) (rw k.lowered (rw good refl)))

  -- If ASCII is UTF-8, a canonical name is its own canonical form, in lower case, with 1 to 253 ASCII bytes and
  -- no dot at its end, and it is no IP literal.
  pub canonical_again :
      (b s : List ℕ)
      → ((x : List ℕ) → All (λ c. c < 128) x → is_utf8 x ≡ true)
      → canonical is_utf8 is_ip b ≡ some s
      → (canonical is_utf8 is_ip s ≡ some s)
        × (map lower s ≡ s)
        × (1 ≤ length s)
        × (length s ≤ 253)
        × All (λ c. c < 128) s
        × (ends_with_dot s ≡ false)
        × (is_ip s ≡ false)
  unfolding canonical
  canonical_again b s ascii e =
      let k = canonical_of-Checked (without_dot b) s e in
      let small = labels-ascii s (are_labels-bytes (labels s) k.labelled) in
      (
        Checked-canonical s k (ascii s small),
        k.lowered,
        filled s k.filled,
        k.short,
        small,
        no_dot_last s k.labelled,
        k.no_ip,
      )
    where
      filled : (s : List ℕ) → is_empty s ≡ false → 1 ≤ length s
      filled [] h = absurd (contrary (unfold is_empty in h))
        where
          contrary : true ≡ false → ⊥
          contrary e = cc
      filled (c ∷ s) h = omega arith

  -- A flow is intercepted exactly when its client offers HTTP/2 and names a host that has a canonical form, which
  -- is then the name used, that is no ignored host and under none, and that the CA's constraints cover.
  pub route_mitm :
      (policy : MitmPolicy) (sni : Option (List ℕ)) (offers_h2 : Bool) (s : List ℕ)
      → (route is_utf8 is_ip policy sni offers_h2 ≡ mitm s) ↔ (
          (raw : List ℕ) × (sni ≡ some raw)
          × (canonical is_utf8 is_ip raw ≡ some s)
          × (offers_h2 ≡ true)
          × (has s policy.ignore.exact ≡ false)
          × (under_any policy.ignore.suffix s ≡ false)
          × (covers policy.scope s ≡ true))
  unfolding route
  route_mitm policy none offers_h2 s = (λ e. cc, λ (raw, e, k1, k2, k3, k4, k5). cc)
  route_mitm policy (some raw) offers_h2 s = (
    λ e.
        let (q, offered, kept, covered) = named (canonical is_utf8 is_ip raw) e in
        let (no_exact, no_suffix) = or_parts _ _ (sym (matches_scan policy.ignore s) ∙ kept) in
        (raw, refl, q, offered, no_exact, no_suffix, covered),
    λ (raw', e, q, offered, no_exact, no_suffix, covered).
        let same : raw ≡ raw' = cc in
        let kept : matches policy.ignore s ≡ false =
          matches_scan policy.ignore s ∙ rw no_exact no_suffix in
        ap (route_name policy offers_h2) (ap (canonical is_utf8 is_ip) same ∙ q)
        ∙ rw (offered, kept, covered) refl,
  )
    where
      or_parts : (a b : Bool) → (a || b) ≡ false → (a ≡ false) × (b ≡ false)
      or_parts true b h = cc
      or_parts false b h = (refl, h)

      named :
          (o : Option (List ℕ))
          → route_name policy offers_h2 o ≡ mitm s
          → (o ≡ some s)
            × (offers_h2 ≡ true)
            × (matches policy.ignore s ≡ false)
            × (covers policy.scope s ≡ true)
      named none h = cc
      named (some n) h = ground (arith, h)
