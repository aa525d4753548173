-- ===== src/Ingress/HttpConnect/Laws.antt =====
-- What crates/mq-proxy/src/ingress/http_connect.rs accepts.
use mqproxy.Prelude.{
  ℕ, suc, ◌^◌, ◌+◌, ◌≤◌, ◌<◌, ◌≡◌, ◌≢◌, refl, List, [], ◌∷◌, Bool, true, false, not, ◌||◌, Option,
  none, some, length, take, drop, arith, ltb, leb, ◌==◌, Bool-cases, Option-cases, inl, inr,
  if◌then◌else◌, ltb→ge, subst, if_elim,
}
use mathlib.Core.Bool.{false≢true}
use mqproxy.Prelude.Options.{◌>>=◌, >>=-eq-some}
use mqproxy.Prelude.Bytes.{find, starts_with, is_empty, rfind_byte, same_bytes}
use mqproxy.Ingress.Request.{
  Host, Target, Progress, need, done, reply, associate, close, capped, close_at_cap, window, ip,
  domain, v4, v6, close_at_cap-ne-need, ingress_cap, length-window,
}
use mqproxy.Ingress.HttpConnect.{
  parse_port, authority, parse_host, plain_host, bracket_host, after_method, request_line, parse,
  feed, done_or_bad, or_zero, crlf, blank_line, connect, http_slash, split_space, r405, max_host,
  strip_suffix, bad,
}

starts_with-length : (xs needle : List ℕ) → starts_with xs needle ≡ true → length needle ≤ length xs
unfolding starts_with
starts_with-length xs [] e = omega arith
starts_with-length [] (y ∷ ys) e = cc
starts_with-length (x ∷ xs) (y ∷ ys) e = elim (Bool-cases (x == y)) [
  | inl same ↦ omega (arith, starts_with-length xs ys (rw same at e))
  | inr differs ↦ absurd (false≢true (rw differs at e))
]

-- Where a string is found, all of it is there.
find-length : (xs needle : List ℕ) (i : ℕ) → find xs needle ≡ some i → i + length needle ≤ length xs
unfolding find
find-length [] needle i e = cc
find-length (x ∷ xs) needle i e = elim (Bool-cases (starts_with (x ∷ xs) needle)) [
  | inl here ↦
      let q : ◌≡◌ {A = Option ℕ} (some 0) (some i) = rw here at e in
      let zero_at : 0 ≡ i = cc in omega (arith, zero_at, starts_with-length (x ∷ xs) needle here)
  | inr later ↦ elim (Option-cases (find xs needle)) [
    | inl nowhere ↦ absurd (ground arith)
    | inr (k, found) ↦
        let next_at : suc k ≡ i = ground arith in
        omega (arith, next_at, find-length xs needle k found)
  ]
]

-- A host that can be dialled.
abbrev pub IsHost : (List ℕ → Bool) → Host → Type 0
IsHost is_utf8 (ip a) = Unit {0}
IsHost is_utf8 (domain s) = (is_utf8 s ≡ true) × (1 ≤ length s) × (length s ≤ max_host)

abbrev pub IsTarget : (List ℕ → Bool) → Target → Type 0
IsTarget is_utf8 t = IsHost is_utf8 t.host × (1 ≤ t.port) × (t.port < 2 ^ 16)

-- What an answer to `n` bytes may be: a request of at most `n` bytes, or a reply that closes.
abbrev pub Answers : (List ℕ → Bool) → ℕ → Progress → Type 0
Answers is_utf8 n need = Unit {0}
Answers is_utf8 n (done k t) = (4 ≤ k) × (k ≤ n) × IsTarget is_utf8 t
Answers is_utf8 n (associate k) = ⊥
Answers is_utf8 n (reply k b closes) = (k ≡ 0) × (closes ≡ true)
Answers is_utf8 n close = Unit {0}

parse_port_bounds : (t : List ℕ) (p : ℕ) → parse_port t ≡ some p → (1 ≤ p) × (p < 2 ^ 16)
unfolding parse_port
parse_port_bounds t p e = ground arith

module _ (is_utf8 : List ℕ → Bool) (parse_v4 parse_v6 : List ℕ → Option (List ℕ)) where
  abbrev MayBeHost : Option Host → Type 0
  MayBeHost none = Unit {0}
  MayBeHost (some h) = IsHost is_utf8 h

  plain_size :
      (s : List ℕ)
      → (is_empty s || ltb max_host (length s)) ≡ false
      → (1 ≤ length s) × (length s ≤ max_host)
  unfolding is_empty
  plain_size [] e = cc
  plain_size (c ∷ s) e = (omega arith, ltb→ge max_host (suc (length s)) e)

  plain_host-IsHost :
      (s : List ℕ) → is_utf8 s ≡ true → MayBeHost (plain_host is_utf8 parse_v4 parse_v6 s)
  unfolding plain_host
  plain_host-IsHost s u =
      if_elim MayBeHost (is_empty s || ltb max_host (length s)) (λ e. tt)
        λ e. by_literal (parse_v4 s) e
    where
      by_literal :
          (o : Option (List ℕ))
          → (is_empty s || ltb max_host (length s)) ≡ false
          → MayBeHost (elim o [ none ↦ some (domain s) | some octets ↦ some (ip (v4 octets)) ])
      by_literal none e = let (low, high) = plain_size s e in (u, low, high)
      by_literal (some octets) e = tt

  bracket_host-IsHost : (inner : List ℕ) → MayBeHost (bracket_host is_utf8 parse_v4 parse_v6 inner)
  unfolding bracket_host
  bracket_host-IsHost inner = by_suffix (strip_suffix inner 93)
    where
      by_octets : (o : Option (List ℕ)) → MayBeHost (o >>= λ octets. some (ip (v6 octets)))
      by_octets none = tt
      by_octets (some octets) = tt

      by_suffix :
          (o : Option (List ℕ))
          → MayBeHost (o >>= λ literal. parse_v6 literal >>= λ octets. some (ip (v6 octets)))
      by_suffix none = tt
      by_suffix (some literal) = by_octets (parse_v6 literal)

  parse_host-IsHost : (h : List ℕ) → MayBeHost (parse_host is_utf8 parse_v4 parse_v6 h)
  unfolding parse_host
  parse_host-IsHost h = elim (Bool-cases (is_utf8 h)) [
    | inl u ↦ rw u (
        if_elim MayBeHost (starts_with h (91 ∷ [])) (λ e. bracket_host-IsHost (drop 1 h))
          λ e. plain_host-IsHost h u)
    | inr bad_bytes ↦ rw bad_bytes tt
  ]

  authority-IsTarget :
      (target : List ℕ) (t : Target)
      → authority is_utf8 parse_v4 parse_v6 target ≡ some t
      → IsTarget is_utf8 t
  unfolding authority
  authority-IsTarget target t e =
      let (colon, at, e1) = >>=-eq-some (rfind_byte target 58) _ e in
      let (port, port_at, e2) = >>=-eq-some (parse_port (drop (colon + 1) target)) _ e1 in
      let (host, host_at, e3) =
        >>=-eq-some (parse_host is_utf8 parse_v4 parse_v6 (take colon target)) _ e2 in
      let q : record { host = host; port = port } ≡ t = cc in
      let (low, high) = parse_port_bounds (drop (colon + 1) target) port port_at in
      subst (IsTarget is_utf8) q
        (subst MayBeHost host_at (parse_host-IsHost (take colon target)), low, high)

  done_or_bad-Answers :
      (n k : ℕ) (target : List ℕ)
      → 4 ≤ k
      → k ≤ n
      → Answers is_utf8 n
          (done_or_bad is_utf8 parse_v4 parse_v6 k (authority is_utf8 parse_v4 parse_v6 target))
  unfolding done_or_bad
  done_or_bad-Answers n k target h l =
      elim (Option-cases (authority is_utf8 parse_v4 parse_v6 target)) [
        | inl e ↦ rw e (refl, refl)
        | inr (t, e) ↦ rw e (h, l, authority-IsTarget target t e)
      ]

  request_line-Answers :
      (n k : ℕ) (line : List ℕ)
      → 4 ≤ k
      → k ≤ n
      → Answers is_utf8 n (request_line is_utf8 parse_v4 parse_v6 k line)
  unfolding request_line after_method
  request_line-Answers n k line h l = by_rest (split_space line).0 (split_space line).1
    where
      P : Progress → Type 0
      P = Answers is_utf8 n

      by_version :
          (target : List ℕ) (o : Option (List ℕ))
          → P (elim o [
            | none ↦ bad
            | some version ↦
                if is_empty target || not (starts_with version http_slash)
                then bad
                else done_or_bad is_utf8 parse_v4 parse_v6 k
                    (authority is_utf8 parse_v4 parse_v6 target)
          ])
      by_version target none = (refl, refl)
      by_version target (some version) =
          if_elim P (is_empty target || not (starts_with version http_slash)) (λ e. (refl, refl))
            λ e. done_or_bad-Answers n k target h l

      by_rest :
          (method : List ℕ) (o : Option (List ℕ))
          → P (elim o [
            | none ↦ bad
            | some rest ↦
                if is_empty method
                then bad
                else if not (same_bytes method connect)
                then reply 0 r405 true
                else after_method is_utf8 parse_v4 parse_v6 k rest
          ])
      by_rest method none = (refl, refl)
      by_rest method (some rest) =
          if_elim P (is_empty method) (λ e. (refl, refl))
            λ e.
              if_elim P (not (same_bytes method connect)) (λ e'. (refl, refl))
                λ e'. by_version (split_space rest).0 (split_space rest).1

  -- `feed` answers a CONNECT request only with a target that can be dialled: a host that is an IP literal
  -- or a UTF-8 name of 1 to 255 bytes, and a port that is not 0. It consumes at least four bytes, and no
  -- more than there are; else it replies and closes without consuming, or waits. It does not wait on a
  -- buffer as long as the cap.
  pub feed-Answers :
      (buf : List ℕ)
      → Answers is_utf8 (length buf) (feed is_utf8 parse_v4 parse_v6 buf)
        × (ingress_cap ≤ length buf → feed is_utf8 parse_v4 parse_v6 buf ≢ need)
  unfolding feed capped parse close_at_cap
  feed-Answers buf = (
    closed (parse is_utf8 parse_v4 parse_v6 (window buf)) (parsed (window buf) (length-window buf)),
    λ full. close_at_cap-ne-need buf (parse is_utf8 parse_v4 parse_v6 (window buf)) full,
  )
    where
      by_end :
          (b : List ℕ) (o : Option ℕ)
          → ((p : ℕ) → o ≡ some p → p + 4 ≤ length buf)
          → Answers is_utf8 (length buf) (elim o [
            | none ↦ need
            | some p ↦
                request_line is_utf8 parse_v4 parse_v6 (p + 4) (take (or_zero (find b crlf)) b)
          ])
      by_end b none h = tt
      by_end b (some p) h =
          request_line-Answers (length buf) (p + 4) (take (or_zero (find b crlf)) b) (omega arith)
            (h p refl)

      parsed :
          (b : List ℕ)
          → length b ≤ length buf
          → Answers is_utf8 (length buf) (parse is_utf8 parse_v4 parse_v6 b)
      parsed b le =
          by_end b (find b blank_line) (λ p e. omega (arith, le, find-length b blank_line p e))

      closed :
          (p : Progress)
          → Answers is_utf8 (length buf) p
          → Answers is_utf8 (length buf) (close_at_cap buf p)
      closed need h =
          if_elim (Answers is_utf8 (length buf)) (leb ingress_cap (length buf)) (λ e. tt) λ e. tt
      closed (done k t) h = h
      closed (associate k) h = h
      closed (reply k b c) h = h
      closed close h = h
