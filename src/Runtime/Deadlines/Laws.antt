-- ===== src/Runtime/Deadlines/Laws.antt =====
-- Deadlines expire in order, each once and none early (crates/mq-runtime/src/driver/deadlines.rs).
use mqproxy.Prelude.{
  ℕ, ◌≤◌, ◌<◌, ◌≡◌, ◌↔◌, refl, ap, ◌∙◌, List, [], ◌∷◌, ◌++◌, true, false, leb, ==_iff,
  if◌then◌else◌, map, All, arith, append-nil, Bool-cases, inl, inr,
}
use mathlib.Core.List.{Perm, perm_middle}
use mathlib.Core.List.Perm
use mqproxy.Runtime.Deadlines.{
  Expired, dial, listener_retry, shutdown_cap, same, Deadlines, without, cancel, set, part, put_in,
  sort_by_time, expire,
}

-- In the order of their times.
abbrev pub Sorted : List (ℕ × Expired) → Type 0
Sorted [] = Unit {0}
Sorted (e ∷ es) = All (λ d. e.0 ≤ d.0) es × Sorted es

All-put_in {κ} :
    (P : ℕ × Expired → Type κ) (e : ℕ × Expired) (es : List (ℕ × Expired))
    → P e
    → All P es
    → All P (put_in e es)
unfolding put_in
All-put_in P e [] p all = (p, tt)
All-put_in P e (d ∷ es) p (k, all) = elim (Bool-cases (leb e.0 d.0)) [
  | inl first ↦ rw first (p, (k, all))
  | inr later ↦ rw later (k, All-put_in P e es p all)
]

All-sort_by_time {κ} :
    (P : ℕ × Expired → Type κ) (es : List (ℕ × Expired)) → All P es → All P (sort_by_time es)
unfolding sort_by_time
All-sort_by_time P [] all = tt
All-sort_by_time P (e ∷ es) (k, all) =
    All-put_in P e (sort_by_time es) k (All-sort_by_time P es all)

all_later :
    (n m : ℕ) (es : List (ℕ × Expired)) → n ≤ m → All (λ d. m ≤ d.0) es → All (λ d. n ≤ d.0) es
all_later n m [] h all = tt
all_later n m (e ∷ es) h (k, all) = (omega (arith, h, k), all_later n m es h all)

put_in-Sorted : (e : ℕ × Expired) (es : List (ℕ × Expired)) → Sorted es → Sorted (put_in e es)
unfolding put_in
put_in-Sorted e [] s = (tt, tt)
put_in-Sorted e (d ∷ es) (k, s) = elim (Bool-cases (leb e.0 d.0)) [
  | inl first ↦
      let le : e.0 ≤ d.0 = ground (arith, first) in
      rw first ((le, all_later e.0 d.0 es le k), (k, s))
  | inr later ↦
      rw later (All-put_in (λ x. d.0 ≤ x.0) e es (ground (arith, later)) k, put_in-Sorted e es s)
]

sort_by_time-Sorted : (es : List (ℕ × Expired)) → Sorted (sort_by_time es)
unfolding sort_by_time
sort_by_time-Sorted [] = tt
sort_by_time-Sorted (e ∷ es) = put_in-Sorted e (sort_by_time es) (sort_by_time-Sorted es)

put_in-Perm : (e : ℕ × Expired) (es : List (ℕ × Expired)) → Perm (put_in e es) (e ∷ es)
unfolding put_in
put_in-Perm e [] = Perm.refl (e ∷ [])
put_in-Perm e (d ∷ es) = elim (Bool-cases (leb e.0 d.0)) [
  | inl first ↦ rw first (Perm.refl (e ∷ d ∷ es))
  | inr later ↦ rw later (Perm.trans (Perm.cons d (put_in-Perm e es)) (Perm.swap e d es))
]

sort_by_time-Perm : (es : List (ℕ × Expired)) → Perm (sort_by_time es) es
unfolding sort_by_time
sort_by_time-Perm [] = Perm.refl []
sort_by_time-Perm (e ∷ es) =
    Perm.trans (put_in-Perm e (sort_by_time es)) (Perm.cons e (sort_by_time-Perm es))

-- `part` parts by the time.
record IsPart (now : ℕ) (armed due rest : List (ℕ × Expired)) : Type 0 where
  late : All (λ e. e.0 ≤ now) due
  early : All (λ e. now < e.0) rest
  all : Perm (due ++ rest) armed

part-IsPart :
    (now : ℕ) (armed : List (ℕ × Expired)) → IsPart now armed (part now armed).0 (part now armed).1
unfolding part
part-IsPart now [] = record { late = tt; early = tt; all = Perm.refl [] }
part-IsPart now (e ∷ armed) =
    let k = part-IsPart now armed in
    let (due, rest) = part now armed in
    elim (Bool-cases (leb e.0 now)) [
      | inl hit ↦ rw hit (record {
        late = (ground (arith, hit), k.late);
        early = k.early;
        all = Perm.cons e k.all;
      })
      | inr miss ↦ rw miss (record {
        late = k.late;
        early = (ground (arith, miss), k.early);
        all = Perm.trans (perm_middle due rest) (Perm.cons e k.all);
      })
    ]

-- What an expiry does with what is armed.
pub record Expires (armed rest : List (ℕ × Expired)) (now : ℕ) (out : List Expired) : Type 0 where
  pub due : List (ℕ × Expired)
  pub given : out ≡ map (λ e. e.1) due
  pub ordered : Sorted due
  pub late : All (λ e. e.0 ≤ now) due
  pub early : All (λ e. now < e.0) rest
  pub all : Perm (due ++ rest) armed

-- `expire` gives the deadlines at or before `now`, in the order of their times, and keeps exactly the later ones:
-- together they are what was armed, none lost and none twice.
pub expire-Expires :
    (s : Deadlines) (now : ℕ) → Expires s.armed (expire s now).0.armed now (expire s now).1
unfolding expire
expire-Expires s now =
    let k = part-IsPart now s.armed in
    let (due, rest) = part now s.armed in
    record {
      due = sort_by_time due;
      given = refl;
      ordered = sort_by_time-Sorted due;
      late = All-sort_by_time (λ e. e.0 ≤ now) due k.late;
      early = k.early;
      all = Perm.trans (Perm.append_right rest (sort_by_time-Perm due)) k.all;
    }

same_iff : (a b : Expired) → (same a b ≡ true) ↔ (a ≡ b)
same_iff (dial a) (dial b) =
    (λ e. ap dial ((==_iff a b).0 e), λ e. (let q : a ≡ b = cc in (==_iff a b).1 q))
same_iff (listener_retry a) (listener_retry b) =
    (λ e. ap listener_retry ((==_iff a b).0 e), λ e. (let q : a ≡ b = cc in (==_iff a b).1 q))
same_iff shutdown_cap shutdown_cap = (λ e. refl, λ e. refl)
same_iff (dial a) (listener_retry b) = (λ e. cc, λ e. cc)
same_iff (dial a) shutdown_cap = (λ e. cc, λ e. cc)
same_iff (listener_retry a) (dial b) = (λ e. cc, λ e. cc)
same_iff (listener_retry a) shutdown_cap = (λ e. cc, λ e. cc)
same_iff shutdown_cap (dial b) = (λ e. cc, λ e. cc)
same_iff shutdown_cap (listener_retry b) = (λ e. cc, λ e. cc)

-- The armings of a deadline.
unfoldable pub armings : Expired → List (ℕ × Expired) → List ℕ
armings d [] = []
armings d ((t, x) ∷ armed) = let rest = armings d armed in if same x d then t ∷ rest else rest

armings-without : (d : Expired) (armed : List (ℕ × Expired)) → armings d (without d armed) ≡ []
unfolding armings without
armings-without d [] = refl
armings-without d ((t, x) ∷ armed) = elim (Bool-cases (same x d)) [
  | inl hit ↦ rw hit (armings-without d armed)
  | inr miss ↦ rw miss (rw miss (armings-without d armed))
]

armings-without_ne :
    (d c : Expired) (armed : List (ℕ × Expired))
    → same d c ≡ false
    → armings c (without d armed) ≡ armings c armed
unfolding armings without
armings-without_ne d c [] ne = refl
armings-without_ne d c ((t, x) ∷ armed) ne = elim (Bool-cases (same x d)) [
  | inl hit ↦
      let q : same x c ≡ false = ap (λ y. same y c) ((same_iff x d).0 hit) ∙ ne in
      rw hit (rw q (armings-without_ne d c armed ne))
  | inr miss ↦ rw miss (rw (armings-without_ne d c armed ne) refl)
]

armings-append :
    (d : Expired) (xs ys : List (ℕ × Expired)) → armings d (xs ++ ys) ≡ armings d xs ++ armings d ys
unfolding armings
armings-append d [] ys = refl
armings-append d ((t, x) ∷ xs) ys = elim (Bool-cases (same x d)) [
  | inl hit ↦ rw hit (ap (◌∷◌ t) (armings-append d xs ys))
  | inr miss ↦ rw miss (armings-append d xs ys)
]

-- After `set` a deadline is armed once, at the new time, and after `cancel` not at all, whatever was armed before;
-- the armings of any other deadline are as before.
pub set-armings :
    (s : Deadlines) (d : Expired) (at : ℕ)
    → (armings d (set s d at).armed ≡ at ∷ [])
      × (armings d (cancel s d).armed ≡ [])
      × ((c : Expired)
          → same d c ≡ false
          → (armings c (set s d at).armed ≡ armings c s.armed)
            × (armings c (cancel s d).armed ≡ armings c s.armed))
unfolding set cancel armings
set-armings s d at = (
  armings-append d (without d s.armed) ((at, d) ∷ [])
      ∙ ap (λ x. x ++ armings d ((at, d) ∷ [])) (armings-without d s.armed)
      ∙ rw ((same_iff d d).1 refl) refl,
  armings-without d s.armed,
  λ c ne. (
    armings-append c (without d s.armed) ((at, d) ∷ [])
        ∙ ap (λ x. x ++ armings c ((at, d) ∷ [])) (armings-without_ne d c s.armed ne)
        ∙ rw ne (append-nil (armings c s.armed)),
    armings-without_ne d c s.armed ne,
  ),
)
