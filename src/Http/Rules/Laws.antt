-- ===== src/Http/Rules/Laws.antt =====
-- That the rules of crates/mq-http/src/headers.rs do not depend on letter case, and the cache lifetimes.
use mqproxy.Prelude.{
  ℕ, zero, suc, ◌+◌, ◌-◌, ◌*◌, ◌≤◌, ◌≡◌, refl, sym, ap, ◌∙◌, List, [], ◌∷◌, Bool, true, false, ◌&&◌,
  ltb, leb, ltb→lt, ltb→ge, if◌then◌else◌, length, take, map, arith, Bool-cases, inl, inr,
}
use mqproxy.Prelude.Bytes.{all, is_digit, lower, same_bytes, same_ignoring_case}
use mqproxy.Prelude.ByteLaws.{same_ignoring_case-lower, same_bytes_iff}
use mqproxy.Prelude.Text.{ascii}
use mqproxy.Http.Head.Laws.{decimal, decimal_ge}
use mqproxy.Http.Rules.{
  cache_ttl_max, has_prefix_ci, is_xmq, cache_ttl_from, parse_cache_ttl, hop_names, is_any_of,
  is_hop_by_hop, strip_client, strip_server,
}

length-lower : (xs : List ℕ) → length (map lower xs) ≡ length xs
length-lower [] = refl
length-lower (x ∷ xs) = ap suc (length-lower xs)

take-lower : (n : ℕ) (xs : List ℕ) → map lower (take n xs) ≡ take n (map lower xs)
take-lower zero xs = refl
take-lower (suc n) [] = refl
take-lower (suc n) (x ∷ xs) = ap (◌∷◌ (lower x)) (take-lower n xs)

-- Two spellings of one name.
module _ (a b : List ℕ) (same : same_ignoring_case a b ≡ true) where
  lowered : map lower a ≡ map lower b
  lowered =
      (same_bytes_iff (map lower a) (map lower b)).0 (sym (same_ignoring_case-lower a b) ∙ same)

  same_length : length a ≡ length b
  same_length = sym (length-lower a) ∙ ap length lowered ∙ length-lower b

  same_name : (h : List ℕ) → same_ignoring_case a h ≡ same_ignoring_case b h
  same_name h =
      same_ignoring_case-lower a h
      ∙ ap (λ x. same_bytes x (map lower h)) lowered
      ∙ sym (same_ignoring_case-lower b h)

  same_any_of : (hs : List (List ℕ)) → is_any_of a hs ≡ is_any_of b hs
  unfolding is_any_of
  same_any_of [] = refl
  same_any_of (h ∷ hs) = rw (same_name h, same_any_of hs) refl

  same_prefix : (pfx : List ℕ) → has_prefix_ci a pfx ≡ has_prefix_ci b pfx
  unfolding has_prefix_ci
  same_prefix pfx =
      let n = length pfx in
      let parts : map lower (take n a) ≡ map lower (take n b) =
        take-lower n a ∙ ap (take n) lowered ∙ sym (take-lower n b) in
      rw
        (
          same_length,
          same_ignoring_case-lower (take n a) pfx,
          parts,
          ← same_ignoring_case-lower (take n b) pfx,
        )
        refl

  same_xmq : is_xmq a ≡ is_xmq b
  unfolding is_xmq
  same_xmq = same_prefix (ascii "x-mq-")

  same_hop : is_hop_by_hop a ≡ is_hop_by_hop b
  unfolding is_hop_by_hop
  same_hop = same_any_of hop_names

  -- Two spellings of a header name that differ in case only are both stripped or both kept, on the way to the
  -- tunnel, with or without cookies, and on the way to the origin: no spelling slips through.
  pub strip_any_case :
      (forward_cookie : Bool)
      → (strip_client a forward_cookie ≡ strip_client b forward_cookie)
        × (strip_server a ≡ strip_server b)
  unfolding strip_client strip_server
  strip_any_case forward_cookie = (
    rw
        (
          same_hop,
          same_xmq,
          same_name (ascii "host"),
          same_name (ascii "content-length"),
          same_name (ascii "cookie"),
        )
        refl,
    rw (same_hop, same_xmq) refl,
  )

ttl_from :
    (n : ℕ) (v : List ℕ)
    → n ≤ cache_ttl_max
    → cache_ttl_from n v
      ≡ (if all is_digit v && leb (decimal n v) cache_ttl_max then decimal n v else 0)
unfolding cache_ttl_from decimal all
ttl_from n [] h = let q : leb n cache_ttl_max ≡ true = ground (arith, h) in rw q refl
ttl_from n (c ∷ v) h = elim (Bool-cases (is_digit c)) [
  | inr other ↦ rw other refl
  | inl digit ↦
      let n' : ℕ = n * 10 + (c - 48) in
      elim (Bool-cases (ltb cache_ttl_max n')) [
        | inl large ↦
            let over : leb (decimal n' v) cache_ttl_max ≡ false =
              ground (arith, decimal_ge n' v, ltb→lt cache_ttl_max n' large) in
            rw (digit, large, over) (ground arith)
        | inr fits ↦ rw (digit, fits) (ttl_from n' v (ltb→ge cache_ttl_max n' fits))
      ]
]

-- A cache lifetime is the number that its digits stand for, if it has digits only and that is at most a year
-- of seconds; any other text, and none, is the absent lifetime 0.
pub parse_cache_ttl_lem :
    (v : List ℕ)
    → parse_cache_ttl v
      ≡ (if all is_digit v && leb (decimal 0 v) cache_ttl_max then decimal 0 v else 0)
unfolding parse_cache_ttl
parse_cache_ttl_lem v = ttl_from 0 v (omega arith)
