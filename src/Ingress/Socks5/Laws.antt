-- ===== src/Ingress/Socks5/Laws.antt =====
-- What the SOCKS5 parser of crates/mq-proxy/src/ingress/socks5.rs consumes and when it waits.
use mqproxy.Prelude.{
  ℕ, suc, ◌+◌, ◌-◌, ◌≤◌, ◌≡◌, refl, List, [], ◌∷◌, Option, none, some, Bool, true, false, not, ◌&&◌,
  ltb, ◌==◌, length, take, drop, arith, ◌≢◌, if_elim, ltb→ge, leb,
}
use mqproxy.Ingress.Request.{
  Host, Progress, need, done, associate, reply, close, window, close_at_cap, close_at_cap-ne-need,
  length-window, ingress_cap,
}
use mqproxy.Ingress.Socks5.{
  ver, greeting, refuse, Span, at, missing, unsupported, span, host_of, request_at, request, feed,
  contains, method_ok, reply_of, be_u16,
}

-- What a step of at most `n` bytes may consume: a request is not empty, and only a reply that
-- closes consumes nothing.
abbrev pub Consumes : ℕ → Progress → Type 0
Consumes n need = Unit {0}
Consumes n (done k t) = (7 ≤ k) × (k ≤ n)
Consumes n (associate k) = (7 ≤ k) × (k ≤ n)
Consumes n (reply k b true) = k ≡ 0
Consumes n (reply k b false) = (2 ≤ k) × (k ≤ n) × (b ≡ method_ok)
Consumes n close = Unit {0}

greeting-Consumes : (b : List ℕ) → Consumes (length b) (greeting b).1
unfolding greeting
greeting-Consumes [] = tt
greeting-Consumes (v ∷ []) = tt
greeting-Consumes (v ∷ n ∷ methods) =
    let P = λ (r : Bool × Progress). Consumes (suc (suc (length methods))) r.1 in
    if_elim P (not (v == ver)) (λ bad. tt)
      λ good.
        if_elim P (ltb (length methods) n) (λ short. tt)
          λ enough.
            if_elim P (not (contains 0 (take n methods))) (λ none_fits. refl)
              λ fits. (omega arith, omega (arith, ltb→ge (length methods) n enough), refl)

span_bounds : (atyp : ℕ) (rest : List ℕ) (off len : ℕ) → span atyp rest ≡ at off len → 5 ≤ off + len
unfolding span
span_bounds atyp [] off len e = ground arith
span_bounds atyp (n ∷ rest) off len e = ground arith

module _ (is_utf8 : List ℕ → Bool) where
  request_at-Consumes :
      (b : List ℕ) (cmd atyp off len : ℕ)
      → 5 ≤ off + len
      → Consumes (length b) (request_at is_utf8 b cmd atyp off len)
  unfolding request_at refuse
  request_at-Consumes b cmd atyp off len h =
      let P = Consumes (length b) in
      if_elim P (ltb (length b) (off + len + 2)) (λ short. tt)
        λ enough.
          let fits = ltb→ge (length b) (off + len + 2) enough in
          if_elim P (cmd == 3) (λ assoc. (omega arith, omega arith))
            λ connect. by_host (host_of is_utf8 atyp (take len (drop off b))) fits
    where
      by_host :
          (o : Option Host)
          → off + len + 2 ≤ length b
          → Consumes (length b) (elim o [
            | none ↦ reply 0 (reply_of 0x08) true
            | some host ↦
                done
                  (off + len + 2)
                  (record { host = host; port = be_u16 (drop (off + len + 2 - 2) b) })
          ])
      by_host none fits = refl
      by_host (some host) fits = (omega arith, omega arith)

  request-Consumes : (b : List ℕ) → Consumes (length b) (request is_utf8 b)
  unfolding request refuse
  request-Consumes [] = tt
  request-Consumes (v ∷ []) = tt
  request-Consumes (v ∷ c ∷ []) = tt
  request-Consumes (v ∷ c ∷ r ∷ []) = tt
  request-Consumes (v ∷ cmd ∷ rsv ∷ atyp ∷ rest) =
      let b = v ∷ cmd ∷ rsv ∷ atyp ∷ rest in
      let P = Consumes (length b) in
      if_elim P (not (v == ver)) (λ bad. tt)
        λ good.
          if_elim P (not (cmd == 1) && not (cmd == 3)) (λ unknown. refl)
            λ known. by_span (span atyp rest) refl
    where
      by_span :
          (s : Span)
          → span atyp rest ≡ s
          → Consumes (suc (suc (suc (suc (length rest))))) (elim s [
            | at off len ↦ request_at is_utf8 (v ∷ cmd ∷ rsv ∷ atyp ∷ rest) cmd atyp off len
            | missing ↦ need
            | unsupported ↦ reply 0 (reply_of 0x08) true
          ])
      by_span (at off len) e =
          request_at-Consumes (v ∷ cmd ∷ rsv ∷ atyp ∷ rest) cmd atyp off len
            (span_bounds atyp rest off len e)
      by_span missing e = tt
      by_span unsupported e = refl

  Consumes-mono : (m n : ℕ) (p : Progress) → m ≤ n → Consumes m p → Consumes n p
  Consumes-mono m n need h c = tt
  Consumes-mono m n (done k t) h c = omega arith
  Consumes-mono m n (associate k) h c = omega arith
  Consumes-mono m n (reply k b true) h c = c
  Consumes-mono m n (reply k b false) h c = (c.0, omega arith, c.2)
  Consumes-mono m n close h c = tt

  capped-Consumes :
      (buf : List ℕ) (n : ℕ) (p : Progress) → Consumes n p → Consumes n (close_at_cap buf p)
  unfolding close_at_cap
  capped-Consumes buf n need c = if_elim (Consumes n) (leb 8192 (length buf)) (λ _. tt) (λ _. tt)
  capped-Consumes buf n (done k t) c = c
  capped-Consumes buf n (associate k) c = c
  capped-Consumes buf n (reply k b x) c = c
  capped-Consumes buf n close c = c

  -- Whatever arrives, a `feed` consumes no more than was buffered: a request at least 7 bytes, an
  -- accepted greeting at least 2, answered with "no authentication"; a reply that closes consumes
  -- nothing. And with 8192 bytes buffered it never asks for more.
  pub feed-Consumes :
      (greeted : Bool) (buf : List ℕ)
      → Consumes (length buf) (feed is_utf8 greeted buf).1
        × (ingress_cap ≤ length buf → (feed is_utf8 greeted buf).1 ≢ need)
  unfolding feed
  feed-Consumes true buf = (
    capped-Consumes buf (length buf) _ (
        Consumes-mono (length (window buf)) (length buf) _ (length-window buf)
          (request-Consumes (window buf))),
    close_at_cap-ne-need buf _,
  )
  feed-Consumes false buf = (
    capped-Consumes buf (length buf) _ (
        Consumes-mono (length (window buf)) (length buf) _ (length-window buf)
          (greeting-Consumes (window buf))),
    close_at_cap-ne-need buf _,
  )
