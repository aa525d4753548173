-- ===== src/Udp/Defrag/Lists.antt =====
-- Facts on the slot list and the fragment lists of crates/mq-proxy/src/udp/defrag.rs.
use mqproxy.Prelude.{
  All-get_elem?, All-set, get_elem?-some, get_elem?_lt, ℕ, zero, suc, ◌+◌, ◌-◌, ◌<◌, ◌≡◌, refl, ap,
  List, [], ◌∷◌, Option, none, some, length, get_elem?, set, take, length-set, length-take,
  length-append, subst, All, All-take, arith, replicate, lt→ltb, Option-cases, get_elem?-set_self,
  get_elem?-set_ne, sym, ◌≢◌, Bool-cases, ◌==◌, inl, inr, ==_iff, leb,
}
use mqproxy.Prelude.Options.{>>=-eq-some}
use mqproxy.Udp.Defrag.{Slot, position, swap_remove, min_seq, assembled}

module _ {ℓ} {A : Type ℓ} where
  pub swap_remove-some :
      (xs : List A) (i : ℕ) → i < length xs → (ys : List A) × (swap_remove xs i ≡ some ys)
  unfolding swap_remove
  swap_remove-some xs i h =
      let (last, e) = get_elem?-some xs (length xs - 1) (omega arith) in
      (take (length xs - 1) (set xs i last), rw (e, lt→ltb i (length xs) h))

  pub length-swap_remove :
      (xs : List A) (i : ℕ) (ys : List A) → swap_remove xs i ≡ some ys → length ys + 1 ≡ length xs
  unfolding swap_remove
  length-swap_remove xs i ys e =
      let (last, at, rest) = >>=-eq-some (get_elem? xs (length xs - 1)) _ e in
      ground (
        arith,
        length-take (length xs - 1) (set xs i last),
        length-set xs i last,
        get_elem?_lt xs (length xs - 1) last at,
      )

module _ {ℓ κ} {A : Type ℓ} (P : A → Type κ) where
  pub All-swap_remove :
      (xs : List A) (i : ℕ) (ys : List A) → All P xs → swap_remove xs i ≡ some ys → All P ys
  unfolding swap_remove
  All-swap_remove xs i ys h e =
      let (last, at, rest) = >>=-eq-some (get_elem? xs (length xs - 1)) _ e in
      let q : All P (take (length xs - 1) (set xs i last)) =
        All-take P (length xs - 1) (set xs i last)
          (All-set P xs i last h (All-get_elem? P xs _ last h at)) in
      let same : take (length xs - 1) (set xs i last) ≡ ys = ground arith in subst (All P) same q

pub position_get :
    (p : ℕ) (ss : List Slot) (i : ℕ)
    → position p ss ≡ some i
    → (s : Slot) × (get_elem? ss i ≡ some s) × (s.packet_id ≡ p)
unfolding position
position_get p [] i e = cc
position_get p (s ∷ ss) i e = elim (Bool-cases (s.packet_id == p)) [
  | inl hit ↦
      let at : ◌≡◌ {A = Option ℕ} (some 0) (some i) = rw hit at e in
      let zero_at : 0 ≡ i = cc in (s, rw (← zero_at) refl, (==_iff s.packet_id p).0 hit)
  | inr miss ↦ elim (Option-cases (position p ss)) [
    | inl nowhere ↦ absurd (ground arith)
    | inr (k, found) ↦
        let (t, at, same) = position_get p ss k found in
        let next : suc k ≡ i = ground arith in (t, rw (← next) at, same)
  ]
]

pub min_seq-some :
    (ss : List Slot)
    → 0 < length ss
    → (j : ℕ) × (m : ℕ) × (min_seq ss ≡ some (j, m)) × (j < length ss)
unfolding min_seq
min_seq-some [] h = absurd (omega arith)
min_seq-some (s ∷ []) h = (0, s.seq, refl, omega arith)
min_seq-some (s ∷ t ∷ ss) h =
    let (j, m, e, lt) = min_seq-some (t ∷ ss) (omega arith) in
    elim (Bool-cases (leb s.seq m)) [
      | inl first ↦ (0, s.seq, (rw e (rw first)), omega arith)
      | inr later ↦ (suc j, m, (rw e (rw later)), omega arith)
    ]

-- How many fragments are there, and their bytes in all.
unfoldable pub count_some : List (Option (List ℕ)) → ℕ
count_some [] = 0
count_some (none ∷ fs) = count_some fs
count_some (some b ∷ fs) = suc (count_some fs)

unfoldable pub total : List (Option (List ℕ)) → ℕ
total [] = 0
total (none ∷ fs) = total fs
total (some b ∷ fs) = length b + total fs

pub count_some-set :
    (fs : List (Option (List ℕ))) (j : ℕ) (b : List ℕ)
    → get_elem? fs j ≡ some none
    → (count_some (set fs j (some b)) ≡ suc (count_some fs))
      × (total (set fs j (some b)) ≡ total fs + length b)
unfolding count_some total
count_some-set [] j b e = cc
count_some-set (none ∷ fs) zero b e = (refl, omega arith)
count_some-set (some a ∷ fs) zero b e = cc
count_some-set (none ∷ fs) (suc j) b e = count_some-set fs j b e
count_some-set (some a ∷ fs) (suc j) b e =
    let (c, t) = count_some-set fs j b e in (omega arith, omega arith)

pub count_some-replicate :
    (n : ℕ) → (count_some (replicate n none) ≡ 0) × (total (replicate n none) ≡ 0)
unfolding count_some total
count_some-replicate zero = (refl, refl)
count_some-replicate (suc n) = count_some-replicate n

pub length-assembled : (fs : List (Option (List ℕ))) → length (assembled fs) ≡ total fs
unfolding assembled total
length-assembled [] = refl
length-assembled (none ∷ fs) = length-assembled fs
length-assembled (some b ∷ fs) = omega (arith, length-append b (assembled fs), length-assembled fs)

module _ {ℓ} {A : Type ℓ} where
  set-set : (xs : List A) (i : ℕ) (v w : A) → set (set xs i v) i w ≡ set xs i w
  set-set [] i v w = refl
  set-set (x ∷ xs) zero v w = refl
  set-set (x ∷ xs) (suc i) v w = ap (◌∷◌ x) (set-set xs i v w)

  take-set : (xs : List A) (n : ℕ) (v : A) → take n (set xs n v) ≡ take n xs
  take-set [] n v = refl
  take-set (x ∷ xs) zero v = refl
  take-set (x ∷ xs) (suc n) v = ap (◌∷◌ x) (take-set xs n v)

  -- What is removed need not have been written first.
  pub swap_remove-set :
      (xs : List A) (i : ℕ) (v : A) → i < length xs → swap_remove (set xs i v) i ≡ swap_remove xs i
  unfolding swap_remove
  swap_remove-set xs i v h =
      let (last, e) = get_elem?-some xs (length xs - 1) (omega arith) in
      elim (Bool-cases (i == length xs - 1)) [
        | inl at_end ↦
            let q : length xs - 1 ≡ i = sym ((==_iff i (length xs - 1)).0 at_end) in
            let e' : get_elem? xs i ≡ some last = rw q at e in
            rw (length-set xs i v, q, get_elem?-set_self xs i v h, e')
              (rw (set-set xs i v v, take-set xs i v, take-set xs i last))
        | inr before ↦
            let ne : i ≢ length xs - 1 = λ q. cc (before, (==_iff i (length xs - 1)).1 q) in
            rw (length-set xs i v, get_elem?-set_ne xs v ne, e) (rw (set-set xs i v last))
      ]
