-- ===== src/Client/Mitm/Policy.antt =====
-- crates/mq-proxy/src/client/mitm/policy.rs: whether a captured TLS flow is intercepted or relayed as it is.
-- A name is its bytes; a hash set is a list without repetition. The standard library's check of UTF-8 and its
-- parser of IP literals are parameters.
pub mod Laws
pub mod Names
use mqproxy.Prelude.{
  ℕ, ◌-◌, List, [], ◌∷◌, ◌++◌, Bool, true, false, not, ◌&&◌, ◌||◌, Option, none, some, ltb, leb,
  ◌==◌, if◌then◌else◌, length, take, drop, map, Result, ok, err,
}
use mqproxy.Prelude.Maps.{Key}
use mqproxy.Prelude.Sets.{has}
use mqproxy.Prelude.Bytes.{all, is_empty, is_digit, lower, same_bytes}
use mqproxy.Prelude.ByteLaws.{same_bytes_iff}

instance abbrev pub bytes_key : Key (List ℕ)
bytes_key = record { same = same_bytes; same_iff = same_bytes_iff }

abbrev pub dot : ℕ
dot = b'.'

-- `ends_with(".")`.
unfoldable pub ends_with_dot : List ℕ → Bool
ends_with_dot [] = false
ends_with_dot (c ∷ []) = c == dot
ends_with_dot (c ∷ d ∷ s) = ends_with_dot (d ∷ s)

-- `strip_suffix(".").unwrap_or`.
unfoldable pub without_dot : List ℕ → List ℕ
unfolding ends_with_dot
without_dot b = if ends_with_dot b then take (length b - 1) b else b

abbrev pub on_first : ℕ → List (List ℕ) → List (List ℕ)
on_first c [] = (c ∷ []) ∷ []
on_first c (l ∷ ls) = (c ∷ l) ∷ ls

-- `split('.')`.
unfoldable pub labels : List ℕ → List (List ℕ)
labels [] = [] ∷ []
labels (c ∷ s) = let rest = labels s in if c == dot then [] ∷ rest else on_first c rest

-- `is_ascii_alphanumeric`, or a hyphen.
abbrev pub is_label_byte : ℕ → Bool
is_label_byte c =
    is_digit c || (leb b'A' c && leb c b'Z') || (leb b'a' c && leb c b'z') || (c == b'-')

abbrev pub is_label : List ℕ → Bool
is_label l = leb 1 (length l) && leb (length l) 63 && all is_label_byte l

unfoldable pub are_labels : List (List ℕ) → Bool
unfolding all
are_labels [] = true
are_labels (l ∷ ls) = is_label l && are_labels ls

module _ (is_utf8 is_ip : List ℕ → Bool) where
  unfoldable pub canonical_of : List ℕ → Option (List ℕ)
  unfolding are_labels labels is_empty
  canonical_of b =
      if is_empty b || ltb 253 (length b)
      then none
      else if not (is_utf8 b)
      then none
      else if not (are_labels (labels (map lower b))) || is_ip (map lower b)
      then none
      else some (map lower b)

  unfoldable pub canonical : List ℕ → Option (List ℕ)
  unfolding canonical_of without_dot
  canonical b = canonical_of (without_dot b)

-- `strip_suffix`.
unfoldable pub strip_suffix : List ℕ → List ℕ → Option (List ℕ)
unfolding same_bytes
strip_suffix n base =
    let k = length n - length base in
    if leb (length base) (length n) && same_bytes (drop k n) base then some (take k n) else none

unfoldable pub is_under : List ℕ → List ℕ → Bool
unfolding strip_suffix ends_with_dot
is_under n base = elim (strip_suffix n base) [ none ↦ false | some p ↦ ends_with_dot p ]

unfoldable pub is_under_or_eq : List ℕ → List ℕ → Bool
unfolding is_under same_bytes
is_under_or_eq n base = same_bytes n base || is_under n base

pub record IgnoreHosts : Type 0 where
  pub exact : List (List ℕ)
  pub suffix : List (List ℕ)

abbrev pub no_hosts : IgnoreHosts
no_hosts = record { exact = []; suffix = [] }

abbrev pub insert : List ℕ → List (List ℕ) → List (List ℕ)
insert n s = if has n s then s else n ∷ s

-- An entry without its leading dot, and whether it had one.
abbrev pub strip_dot : List ℕ → Bool × List ℕ
strip_dot [] = (false, [])
strip_dot (c ∷ e) = if c == dot then (true, e) else (false, c ∷ e)

abbrev pub add_host : IgnoreHosts → Bool → List ℕ → IgnoreHosts
add_host h true sni = record h { suffix = insert sni h.suffix }
add_host h false sni = record h { exact = insert sni h.exact }

-- The parent domains of a name, the longest first: what is behind each of its dots.
unfoldable pub parents : List ℕ → List (List ℕ)
parents [] = []
parents (c ∷ n) = let rest = parents n in if c == dot then n ∷ rest else rest

unfoldable pub any_has : List (List ℕ) → List (List ℕ) → Bool
unfolding has same_bytes
any_has suffix [] = false
any_has suffix (n ∷ ns) = has n suffix || any_has suffix ns

unfoldable pub matches : IgnoreHosts → List ℕ → Bool
unfolding any_has parents
matches h n = has n h.exact || any_has h.suffix (parents n)

pub data DnsSubtree : Type 0 where
  everything : DnsSubtree
  domain : List ℕ → DnsSubtree
  under : List ℕ → DnsSubtree

unfoldable pub in_subtree : DnsSubtree → List ℕ → Bool
unfolding is_under is_under_or_eq
in_subtree everything s = true
in_subtree (domain c) s = is_under_or_eq s c
in_subtree (under c) s = is_under s c

pub record CaScope : Type 0 where
  pub permitted : List DnsSubtree
  pub excluded : List DnsSubtree

unfoldable pub any_subtree : List DnsSubtree → List ℕ → Bool
unfolding in_subtree
any_subtree [] s = false
any_subtree (t ∷ ts) s = in_subtree t s || any_subtree ts s

abbrev pub is_none_permitted : List DnsSubtree → Bool
is_none_permitted [] = true
is_none_permitted (t ∷ ts) = false

unfoldable pub covers : CaScope → List ℕ → Bool
unfolding any_subtree
covers scope s =
    (is_none_permitted scope.permitted || any_subtree scope.permitted s)
    && not (any_subtree scope.excluded s)

pub data Why : Type 0 where
  not_tls : Why
  no_sni : Why
  bad_sni : Why
  no_h2 : Why
  ignored : Why
  out_of_ca_scope : Why
  tls_incompatible : Why
  timeout : Why
  too_large : Why
  eof : Why
  at_capacity : Why

pub data Route : Type 0 where
  mitm : List ℕ → Route
  opaque : Why → Route

pub record MitmPolicy : Type 0 where
  pub ignore : IgnoreHosts
  pub scope : CaScope

-- The checks on a canonical name.
abbrev pub route_name : MitmPolicy → Bool → Option (List ℕ) → Route
route_name policy offers_h2 none = opaque bad_sni
route_name policy offers_h2 (some sni) =
    if not offers_h2
    then opaque no_h2
    else if matches policy.ignore sni
    then opaque ignored
    else if not (covers policy.scope sni)
    then opaque out_of_ca_scope
    else mitm sni

module _ (is_utf8 is_ip : List ℕ → Bool) where
  -- The error is the invalid entry.
  unfoldable pub parse_from : IgnoreHosts → List (List ℕ) → Result (List ℕ) IgnoreHosts
  unfolding canonical
  parse_from h [] = ok h
  parse_from h (e ∷ es) =
      let (dotted, host) = strip_dot e in
      elim (canonical is_utf8 is_ip host) [
        | none ↦ err e
        | some sni ↦ parse_from (add_host h dotted sni) es
      ]

  unfoldable pub parse : List (List ℕ) → Result (List ℕ) IgnoreHosts
  unfolding parse_from
  parse entries = parse_from no_hosts entries

  unfoldable pub route : MitmPolicy → Option (List ℕ) → Bool → Route
  unfolding canonical matches covers
  route policy none offers_h2 = opaque no_sni
  route policy (some raw) offers_h2 = route_name policy offers_h2 (canonical is_utf8 is_ip raw)
