-- ===== src/Http/Target/Authority.antt =====
-- The authority of a target of crates/mq-http/src/headers.rs: what an accepted one looks like, and that it is split
-- off again in front of any path.
use mqproxy.Prelude.{
  ℕ, ◌≤◌, ◌≡◌, ◌≢◌, ◌⊎◌, refl, subst, List, [], ◌∷◌, ◌++◌, Bool, true, false, not, ◌&&◌, ◌||◌,
  Option, none, some, ltb, ◌==◌, length, drop, arith, All, Bool-cases, inl, inr,
}
use mqproxy.Prelude.Options.{>>=-eq-some}
use mqproxy.Prelude.Bytes.{find_byte, any, is_empty, rfind_byte}
use mqproxy.Prelude.ByteLaws.{any-find_byte, any-eq_false}
use mqproxy.Http.Target.{
  behind, authority_split, is_bracketed, bad_authority_byte, scan_from, authority_ok, authority_max,
  port_if,
}

behind-eq-some :
    (c : ℕ) (o : Option (List ℕ × List ℕ)) (a r : List ℕ)
    → behind c o ≡ some (a, r)
    → (a' : List ℕ) × (o ≡ some (a', r)) × (a ≡ c ∷ a')
behind-eq-some c none a r e = cc
behind-eq-some c (some (a', r')) a r e = (a', cc, cc)

abbrev is_bracket_close : ℕ → Bool
is_bracket_close c = c == b']'

-- An authority that was split off is split off again in front of any path, if its bracket is closed.
split_again :
    (inb : Bool) (s a r p : List ℕ)
    → authority_split false inb s ≡ some (a, r)
    → (inb ≡ false) ⊎ (any is_bracket_close a ≡ true)
    → authority_split false inb (a ++ (b'/' ∷ p)) ≡ some (a, b'/' ∷ p)
unfolding authority_split any
split_again inb [] [] r p e closed = ground arith
split_again inb [] (x ∷ a) r p e closed = cc
split_again inb (c ∷ s) [] r p e closed = ground arith
split_again inb (c ∷ s) (x ∷ a) r p e closed =
    let no_open : (c == b'[') ≡ false = ground (arith, e) in
    elim (Bool-cases (c == b']')) [
      | inl close ↦
          let (a', e', q) =
            behind-eq-some c (authority_split false false s) (x ∷ a) r (rw (no_open, close) at e) in
          let ih = split_again false s a r p (cc) (inl refl) in
          let at : x ≡ c = cc in rw (at, no_open, close, ih) refl
      | inr other ↦ elim (Bool-cases (((c == b'/') || (c == b'?')) && not inb)) [
        | inl stop ↦ absurd (no_cons (rw (no_open, other, stop) at e))
        | inr on ↦
            let (a', e', q) =
              behind-eq-some c (authority_split false inb s) (x ∷ a) r
                (rw (no_open, other, on) at e) in
            let at : x ≡ c = cc in
            let closed' : (inb ≡ false) ⊎ (any is_bracket_close a ≡ true) =
              ground (arith, closed, at, other) in
            let ih = split_again inb s a r p (cc) closed' in rw (at, no_open, other, on, ih) refl
      ]
    ]
  where
    no_cons : ◌≡◌ {A = Option (List ℕ × List ℕ)} (some ([], c ∷ s)) (some (x ∷ a, r)) → ⊥
    no_cons e = cc

-- The same from the start of an authority.
pub split_again_first :
    (s a r p : List ℕ) (x : ℕ)
    → authority_split true false s ≡ some (x ∷ a, r)
    → (is_bracketed (x ∷ a) ≡ true → any is_bracket_close a ≡ true)
    → authority_split true false ((x ∷ a) ++ (b'/' ∷ p)) ≡ some (x ∷ a, b'/' ∷ p)
unfolding authority_split
split_again_first [] a r p x e closed = cc
split_again_first (c ∷ s) a r p x e closed = elim (Bool-cases (c == b'[')) [
  | inl open_here ↦
      let (a', e', q) =
        behind-eq-some c (authority_split false true s) (x ∷ a) r (rw open_here at e) in
      let at : x ≡ c = cc in
      let ih = split_again true s a r p (cc) (inr (closed (rw at open_here))) in
      rw (at, open_here, ih) refl
  | inr other ↦ elim (Bool-cases (c == b']')) [
    | inl close ↦
        let (a', e', q) =
          behind-eq-some c (authority_split false false s) (x ∷ a) r (rw (other, close) at e) in
        let at : x ≡ c = cc in
        let ih = split_again false s a r p (cc) (inl refl) in rw (at, other, close, ih) refl
    | inr on ↦ elim (Bool-cases ((c == b'/') || (c == b'?'))) [
      | inl stop ↦ absurd (no_cons (rw (other, on, stop) at e))
      | inr further ↦
          let (a', e', q) =
            behind-eq-some c (authority_split false false s) (x ∷ a) r
              (rw (other, on, further) at e) in
          let at : x ≡ c = cc in
          let ih = split_again false s a r p (cc) (inl refl) in rw (at, other, on, further, ih) refl
    ]
  ]
]
  where
    no_cons : ◌≡◌ {A = Option (List ℕ × List ℕ)} (some ([], c ∷ s)) (some (x ∷ a, r)) → ⊥
    no_cons e = cc

abbrev pub IsUriByte : ℕ → Type 0
IsUriByte c = (33 ≤ c) × (c ≢ 127) × (c ≢ b'#')

-- What the checks on an authority ensure.
pub record IsAuthority (auth : List ℕ) : Type 0 where
  pub size : (1 ≤ length auth) × (length auth ≤ authority_max)
  pub bytes : All (λ c. IsUriByte c × (c ≢ b'@')) auth
  pub closed : is_bracketed auth ≡ true → any is_bracket_close (drop 1 auth) ≡ true

good_byte : (b : Bool) (c : ℕ) → bad_authority_byte b c ≡ false → IsUriByte c × (c ≢ b'@')
good_byte b c h = ground (arith, h)

module _ {P Q : ℕ → Type 0} (f : (c : ℕ) → P c → Q c) where
  pub All_map : (xs : List ℕ) → All P xs → All Q xs
  All_map [] h = tt
  All_map (x ∷ xs) h = (f x h.0, All_map xs h.1)

scan_from_closed :
    (auth : List ℕ) (from : ℕ)
    → scan_from auth ≡ some from
    → is_bracketed auth ≡ true
    → any is_bracket_close (drop 1 auth) ≡ true
unfolding scan_from
scan_from_closed auth from e b =
    let (rb, found, e') = >>=-eq-some (find_byte (drop 1 auth) b']') _ (rw b at e) in
    any-find_byte (drop 1 auth) b']' rb found

pub authority_ok-IsAuthority : (auth : List ℕ) → authority_ok auth ≡ true → IsAuthority auth
unfolding authority_ok is_empty
authority_ok-IsAuthority [] e = cc
authority_ok-IsAuthority (c ∷ auth) e =
    let a = c ∷ auth in
    elim (Bool-cases (ltb authority_max (length a))) [
      | inl long ↦ absurd (false_true (rw long at e))
      | inr fits ↦ elim (Bool-cases (any (bad_authority_byte (is_bracketed a)) a)) [
        | inl bad ↦ absurd (false_true (rw (fits, bad) at e))
        | inr good ↦ record {
          size = (omega arith, ground (arith, fits));
          bytes =
              All_map (good_byte (is_bracketed a)) a
                (any-eq_false (bad_authority_byte (is_bracketed a)) a good);
          closed = λ b.
              by_scan (scan_from a) (λ from k. scan_from_closed a from k b) refl
                (rw (fits, good) at e);
        }
      ]
    ]
  where
    false_true : false ≡ true → ⊥
    false_true e = cc

    by_scan :
        (o : Option ℕ)
        → ((from : ℕ)
            → scan_from (c ∷ auth) ≡ some from
            → any is_bracket_close (drop 1 (c ∷ auth)) ≡ true)
        → scan_from (c ∷ auth) ≡ o
        → elim o [
          | none ↦ false
          | some from ↦ port_if (c ∷ auth) from (rfind_byte (drop from (c ∷ auth)) b':')
        ]
          ≡ true
        → any is_bracket_close (drop 1 (c ∷ auth)) ≡ true
    by_scan none f k h = cc
    by_scan (some from) f k h = f from k

-- What is behind an authority is nothing, or begins with a slash or a question mark.
abbrev pub IsRest : List ℕ → Type 0
IsRest [] = Unit {0}
IsRest (c ∷ rest) = (c ≡ b'/') ⊎ (c ≡ b'?')

pub authority_split-IsRest :
    (first inb : Bool) (s auth rest : List ℕ)
    → authority_split first inb s ≡ some (auth, rest)
    → IsRest rest
unfolding authority_split
authority_split-IsRest first inb [] auth rest e = let q : [] ≡ rest = cc in subst IsRest q tt
authority_split-IsRest first inb (c ∷ s) auth rest e =
    by_byte (authority_split-IsRest false true s) (authority_split-IsRest false false s)
      (authority_split-IsRest false inb s)
  where
    inner :
        (b : Bool)
        → ((a r : List ℕ) → authority_split false b s ≡ some (a, r) → IsRest r)
        → behind c (authority_split false b s) ≡ some (auth, rest)
        → IsRest rest
    inner b f h =
        let (a', e', q) = behind-eq-some c (authority_split false b s) auth rest h in f a' rest e'

    by_byte :
        ((a r : List ℕ) → authority_split false true s ≡ some (a, r) → IsRest r)
        → ((a r : List ℕ) → authority_split false false s ≡ some (a, r) → IsRest r)
        → ((a r : List ℕ) → authority_split false inb s ≡ some (a, r) → IsRest r)
        → IsRest rest
    by_byte opened closed same = elim (Bool-cases (c == b'[')) [
      | inl open_here ↦ elim (Bool-cases first) [
        | inl is_first ↦ inner true opened (rw (open_here, is_first) at e)
        | inr later ↦ absurd (no_split (rw (open_here, later) at e))
      ]
      | inr other ↦ elim (Bool-cases (c == b']')) [
        | inl close ↦ inner false closed (rw (other, close) at e)
        | inr on ↦ elim (Bool-cases (((c == b'/') || (c == b'?')) && not inb)) [
          | inl stop ↦
              let e' : ◌≡◌ {A = Option (List ℕ × List ℕ)} (some ([], c ∷ s)) (some (auth, rest)) =
                rw (other, on, stop) at e in
              let q : c ∷ s ≡ rest = cc in
              let here : IsRest (c ∷ s) = ground (arith, stop) in subst IsRest q here
          | inr further ↦ inner inb same (rw (other, on, further) at e)
        ]
      ]
    ]
      where
        no_split : ◌≡◌ {A = Option (List ℕ × List ℕ)} none (some (auth, rest)) → ⊥
        no_split e = cc
