-- ===== src/Http/Target/Laws.antt =====
-- What an accepted target of crates/mq-http/src/headers.rs looks like, and that it means the same again.
use mqproxy.Prelude.{
  ℕ, ◌≤◌, ◌≡◌, ◌≢◌, ◌⊎◌, refl, sym, ap, subst, ◌∙◌, List, [], ◌∷◌, ◌++◌, Bool, true, false, ◌||◌,
  Option, none, some, ltb, ltb→ge, ◌==◌, length, drop, arith, All, Bool-cases, inl, inr,
}
use mathlib.Core.Path.{subst₂}
use mqproxy.Prelude.Options.{>>=-eq-some}
use mqproxy.Prelude.Bytes.{any, starts_with}
use mqproxy.Prelude.ByteLaws.{any-eq_false}
use mqproxy.Prelude.Text.{ascii}
use mqproxy.Http.Limits.{target_path_max}
use mqproxy.Http.Target.{
  Target, forbidden_uri_byte, scheme_of, authority_split, authority_ok, path_of, target_of,
  parse_target, authority_max, https, http,
}
use mqproxy.Http.Target.Authority.{
  split_again_first, IsUriByte, All_map, authority_ok-IsAuthority, IsRest, authority_split-IsRest,
}

abbrev is_bad_path_byte : ℕ → Bool
is_bad_path_byte c = (c == b'#') || forbidden_uri_byte c

-- What an accepted target was made of.
record Made (scheme auth rest : List ℕ) (t : Target) : Type 0 where
  checked : authority_ok auth ≡ true
  clean : any is_bad_path_byte rest ≡ false
  short : length (path_of rest) ≤ target_path_max
  whole : record { scheme = scheme; authority = auth; path = path_of rest } ≡ t

target_of-Made :
    (scheme auth rest : List ℕ) (t : Target)
    → target_of scheme auth rest ≡ some t
    → Made scheme auth rest t
unfolding target_of
target_of-Made scheme auth rest t e = elim (Bool-cases (authority_ok auth)) [
  | inr bad ↦ absurd (no_target (rw bad at e))
  | inl good ↦ elim (Bool-cases (any is_bad_path_byte rest)) [
    | inl dirty ↦ absurd (no_target (rw (good, dirty) at e))
    | inr clean ↦ elim (Bool-cases (ltb target_path_max (length (path_of rest)))) [
      | inl long ↦ absurd (no_target (rw (good, clean, long) at e))
      | inr fits ↦
          let e' : ◌≡◌ {A = Option Target}
              (some (record { scheme = scheme; authority = auth; path = path_of rest })) (some t) =
            rw (good, clean, fits) at e in
          record { checked = good; clean = clean; short = ltb→ge _ _ fits; whole = cc }
    ]
  ]
]
  where
    no_target : ◌≡◌ {A = Option Target} none (some t) → ⊥
    no_target e = cc

Made-target_of :
    (scheme auth rest : List ℕ) (t : Target)
    → Made scheme auth rest t
    → target_of scheme auth rest ≡ some t
unfolding target_of
Made-target_of scheme auth rest t m =
    let fits : ltb target_path_max (length (path_of rest)) ≡ false = ground (arith, m.short) in
    rw (m.checked, m.clean, fits) (ap some m.whole)

abbrev separator : List ℕ
separator = ascii "://"

-- The two schemes are read back.
scheme_of_cases :
    (s scheme after : List ℕ)
    → scheme_of s ≡ some (scheme, after)
    → ((scheme ≡ https) ⊎ (scheme ≡ http))
      × ((x : List ℕ) → scheme_of (scheme ++ (separator ++ x)) ≡ some (scheme, x))
unfolding scheme_of
scheme_of_cases s scheme after e = elim (Bool-cases (starts_with s (ascii "https://"))) [
  | inl secure ↦
      let e' : ◌≡◌ {A = Option (List ℕ × List ℕ)} (some (https, drop 8 s)) (some (scheme, after)) =
        rw secure at e in
      let q : https ≡ scheme = cc in (inl (sym q), λ x. rw (← q) refl)
  | inr other ↦ elim (Bool-cases (starts_with s (ascii "http://"))) [
    | inl plain ↦
        let e' : ◌≡◌ {A = Option (List ℕ × List ℕ)} (some (http, drop 7 s)) (some (scheme, after)) =
          rw (other, plain) at e in
        let q : http ≡ scheme = cc in (inr (sym q), λ x. rw (← q) refl)
    | inr neither ↦ absurd (no_scheme (rw (other, neither) at e))
  ]
]
  where
    no_scheme : ◌≡◌ {A = Option (List ℕ × List ℕ)} none (some (scheme, after)) → ⊥
    no_scheme e = cc

-- The path begins with a slash, is as clean as what it was made of, and stays as it is.
record IsPath (rest : List ℕ) : Type 0 where
  tail : List ℕ
  slash : path_of rest ≡ b'/' ∷ tail
  clean : any is_bad_path_byte (path_of rest) ≡ false

IsRest-IsPath : (rest : List ℕ) → IsRest rest → any is_bad_path_byte rest ≡ false → IsPath rest
unfolding any
IsRest-IsPath [] k h = record { tail = []; slash = refl; clean = refl }
IsRest-IsPath (c ∷ rest) (inl slash) h =
    let q : (c == b'?') ≡ false = ground (arith, slash) in
    record { tail = rest; slash = rw (slash) refl; clean = rw q h }
IsRest-IsPath (c ∷ rest) (inr mark) h =
    let q : (c == b'?') ≡ true = ground (arith, mark) in
    record { tail = c ∷ rest; slash = rw q refl; clean = rw q h }

-- How an accepted target came about.
record Parsed (s : List ℕ) (t : Target) : Type 0 where
  after : List ℕ
  rest : List ℕ
  scheme : scheme_of s ≡ some (t.scheme, after)
  cut : authority_split true false after ≡ some (t.authority, rest)
  made : Made t.scheme t.authority rest t

parse_target-Parsed : (s : List ℕ) (t : Target) → parse_target s ≡ some t → Parsed s t
unfolding parse_target
parse_target-Parsed s t e =
    let ((scheme, after), found, e1) = >>=-eq-some (scheme_of s) _ e in
    let ((auth, rest), split, e2) = >>=-eq-some (authority_split true false after) _ e1 in
    let m = target_of-Made scheme auth rest t e2 in
    let at : scheme ≡ t.scheme = ap (λ (x : Target). x.scheme) m.whole in
    let who : auth ≡ t.authority = ap (λ (x : Target). x.authority) m.whole in
    record {
      after = after;
      rest = rest;
      scheme = found ∙ ap (λ x. some (x, after)) at;
      cut = split ∙ ap (λ x. some (x, rest)) who;
      made = subst₂ (λ x y. Made x y rest t) at who m;
    }

-- A target that can be dialled and put on a request line.
pub record IsTarget (t : Target) : Type 0 where
  pub scheme : (t.scheme ≡ https) ⊎ (t.scheme ≡ http)
  pub size : (1 ≤ length t.authority) × (length t.authority ≤ authority_max)
  pub authority : All (λ c. IsUriByte c × (c ≢ b'@')) t.authority
  pub slash : (tail : List ℕ) × (t.path ≡ b'/' ∷ tail)
  pub path : All IsUriByte t.path
  pub short : length t.path ≤ target_path_max

path_byte : (c : ℕ) → is_bad_path_byte c ≡ false → IsUriByte c
path_byte c h = ground (arith, h)

-- Whatever bytes arrive, an accepted target has one of the two schemes, an authority of 1 to 255 bytes, and a
-- path of at most 8187 bytes that begins with a slash; neither has a space, a control byte, DEL or "#", so
-- that nothing can be smuggled into a request line, and the authority has no "@".
pub parse_target-IsTarget : (s : List ℕ) (t : Target) → parse_target s ≡ some t → IsTarget t
parse_target-IsTarget s t e =
    let p = parse_target-Parsed s t e in
    let a = authority_ok-IsAuthority t.authority p.made.checked in
    let made : path_of p.rest ≡ t.path = ap (λ (x : Target). x.path) p.made.whole in
    let q =
      IsRest-IsPath p.rest (authority_split-IsRest true false p.after t.authority p.rest p.cut)
        p.made.clean in
    record {
      scheme = (scheme_of_cases s t.scheme p.after p.scheme).0;
      size = a.size;
      authority = a.bytes;
      slash = (q.tail, sym made ∙ q.slash);
      path = subst (All IsUriByte) made (
          All_map path_byte (path_of p.rest)
            (any-eq_false is_bad_path_byte (path_of p.rest) q.clean));
      short = subst (λ x. length x ≤ target_path_max) made p.made.short;
    }

-- The text of a target.
abbrev pub render : Target → List ℕ
render t = t.scheme ++ (separator ++ (t.authority ++ t.path))

-- The text of an accepted target is accepted as the same target: what is passed on means to the next hop what
-- it meant here, and parsing is a canonical form.
pub parse_target-render :
    (s : List ℕ) (t : Target) → parse_target s ≡ some t → parse_target (render t) ≡ some t
unfolding parse_target
parse_target-render s t e =
    let p = parse_target-Parsed s t e in
    let made : path_of p.rest ≡ t.path = ap (λ (x : Target). x.path) p.made.whole in
    let q =
      IsRest-IsPath p.rest (authority_split-IsRest true false p.after t.authority p.rest p.cut)
        p.made.clean in
    let slash : t.path ≡ b'/' ∷ q.tail = sym made ∙ q.slash in
    let back = (scheme_of_cases s t.scheme p.after p.scheme).1 (t.authority ++ t.path) in
    let same : path_of (b'/' ∷ q.tail) ≡ b'/' ∷ q.tail = refl in
    let m : Made t.scheme t.authority t.path t = record {
      checked = p.made.checked;
      clean = subst (λ x. any is_bad_path_byte x ≡ false) made q.clean;
      short =
          subst (λ x. length x ≤ target_path_max) (made ∙ slash ∙ sym same ∙ ap path_of (sym slash))
            p.made.short;
      whole =
          ap (λ x. record { scheme = t.scheme; authority = t.authority; path = x })
            (ap path_of slash ∙ same ∙ sym slash);
    } in
    let again = by_authority t.authority p.after p.rest p.cut p.made.checked q.tail in
    rw back (
      rw (ap (λ x. authority_split true false (t.authority ++ x)) slash ∙ again) (
        ap (target_of t.scheme t.authority) (sym slash)
        ∙ Made-target_of t.scheme t.authority t.path t m))
  where
    by_authority :
        (auth after rest : List ℕ)
        → authority_split true false after ≡ some (auth, rest)
        → authority_ok auth ≡ true
        → (tail : List ℕ)
        → authority_split true false (auth ++ (b'/' ∷ tail)) ≡ some (auth, b'/' ∷ tail)
    by_authority [] after rest split ok tail =
        absurd (omega (arith, (authority_ok-IsAuthority [] ok).size))
    by_authority (x ∷ a) after rest split ok tail =
        split_again_first after a rest tail x split (authority_ok-IsAuthority (x ∷ a) ok).closed
