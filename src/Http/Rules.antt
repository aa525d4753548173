-- ===== src/Http/Rules.antt =====
-- The header rules of crates/mq-http/src/headers.rs: methods, versions, cache lifetimes, what is stripped on
-- the way to the tunnel and to the origin, and the gateway's rejects.
pub mod Laws
use mqproxy.Prelude.{
  ℕ, zero, suc, ◌+◌, ◌-◌, ◌*◌, List, [], ◌∷◌, ◌++◌, Bool, true, false, not, ◌&&◌, ◌||◌, Option,
  none, some, ltb, leb, ◌==◌, if◌then◌else◌, length, take, map,
}
use mqproxy.Prelude.Bytes.{
  starts_with, all, any, is_empty, is_digit, same_bytes, same_ignoring_case,
}
use mqproxy.Prelude.Text.{ascii}
use mqproxy.Http.Head.{is_tchar}
use mqproxy.Http.Limits.{method_max}
use mqproxy.Http.Target.{forbidden_uri_byte}

abbrev pub cache_ttl_max : ℕ
cache_ttl_max = 31_536_000

unfoldable pub has_prefix_ci : List ℕ → List ℕ → Bool
unfolding same_ignoring_case
has_prefix_ci n pfx = leb (length pfx) (length n) && same_ignoring_case (take (length pfx) n) pfx

unfoldable pub is_xmq : List ℕ → Bool
unfolding has_prefix_ci
is_xmq n = has_prefix_ci n (ascii "x-mq-")

-- The array of a method beyond its length is not kept.
unfoldable pub parse_method : List ℕ → Option (List ℕ)
unfolding is_empty all is_tchar
parse_method s =
    if is_empty s || ltb method_max (length s) || not (all is_tchar s) then none else some s

-- `to_ascii_uppercase`.
abbrev pub upper : ℕ → ℕ
upper c = if leb b'a' c && leb c b'z' then c - 32 else c

unfoldable pub parse_method_upper : List ℕ → Option (List ℕ)
unfolding parse_method
parse_method_upper s = parse_method (map upper s)

unfoldable pub is_head : List ℕ → Bool
unfolding same_bytes
is_head method = same_bytes method (ascii "HEAD")

unfoldable pub body_check_applies : List ℕ → ℕ → Bool
unfolding is_head
body_check_applies method status =
    not (is_head method)
    && not (leb 100 status && ltb status 200)
    && not (status == 204)
    && not (status == 304)

pub data HttpVer : Type 0 where
  default_ver : HttpVer
  h1 : HttpVer
  h2 : HttpVer
  h3 : HttpVer

unfoldable pub parse_http_ver : List ℕ → HttpVer
unfolding same_ignoring_case
parse_http_ver v =
    if same_ignoring_case v (ascii "h3")
    then h3
    else if same_ignoring_case v (ascii "h2")
    then h2
    else if same_ignoring_case v (ascii "h1")
    then h1
    else default_ver

-- The loop; 0 is what an early return gives.
unfoldable pub cache_ttl_from : ℕ → List ℕ → ℕ
cache_ttl_from n [] = n
cache_ttl_from n (c ∷ v) =
    let n' = n * 10 + (c - b'0') in
    let rest = cache_ttl_from n' v in
    if not (is_digit c) then 0 else if ltb cache_ttl_max n' then 0 else rest

unfoldable pub parse_cache_ttl : List ℕ → ℕ
unfolding cache_ttl_from
parse_cache_ttl v = cache_ttl_from 0 v

abbrev pub hop_names : List (List ℕ)
hop_names =
    ascii "connection"
    ∷ ascii "keep-alive"
    ∷ ascii "proxy-authenticate"
    ∷ ascii "proxy-authorization"
    ∷ ascii "proxy-connection"
    ∷ ascii "te"
    ∷ ascii "trailer"
    ∷ ascii "transfer-encoding"
    ∷ ascii "upgrade"
    ∷ []

-- `any(|h| name.eq_ignore_ascii_case(h))`.
unfoldable pub is_any_of : List ℕ → List (List ℕ) → Bool
unfolding same_ignoring_case
is_any_of name [] = false
is_any_of name (h ∷ hs) = same_ignoring_case name h || is_any_of name hs

unfoldable pub is_hop_by_hop : List ℕ → Bool
unfolding is_any_of
is_hop_by_hop name = is_any_of name hop_names

unfoldable pub strip_client : List ℕ → Bool → Bool
unfolding is_hop_by_hop is_xmq
strip_client name forward_cookie =
    is_hop_by_hop name
    || is_xmq name
    || same_ignoring_case name (ascii "host")
    || same_ignoring_case name (ascii "content-length")
    || (not forward_cookie && same_ignoring_case name (ascii "cookie"))

unfoldable pub strip_server : List ℕ → Bool
unfolding is_hop_by_hop is_xmq
strip_server name = is_hop_by_hop name || is_xmq name

-- `filter(is_xmq)`.
unfoldable pub xmq_names : List (List ℕ) → List (List ℕ)
unfolding is_xmq
xmq_names [] = []
xmq_names (n ∷ ns) = let rest = xmq_names ns in if is_xmq n then n ∷ rest else rest

unfoldable pub has_dup : List (List ℕ) → Bool
unfolding is_any_of
has_dup [] = false
has_dup (a ∷ seen) = is_any_of a seen || has_dup seen

unfoldable pub has_dup_xmq : List (List ℕ) → Bool
unfolding has_dup xmq_names
has_dup_xmq names = has_dup (xmq_names names)

unfoldable pub forward_cookie_requested : List (List ℕ × List ℕ) → Bool
unfolding same_ignoring_case
forward_cookie_requested [] = false
forward_cookie_requested ((n, v) ∷ headers) =
    let rest = forward_cookie_requested headers in
    if same_ignoring_case n (ascii "x-mq-forward-cookie")
    then same_ignoring_case v (ascii "true")
    else rest

unfoldable pub name_ok : List ℕ → Bool
unfolding all
name_ok s = all (λ c. leb 32 c && not (c == 127)) s

unfoldable pub value_ok : List ℕ → Bool
unfolding all
value_ok s = all (λ c. (c == 9) || (leb 32 c && not (c == 127))) s

unfoldable pub uri_field_ok : List ℕ → Bool
unfolding any
uri_field_ok s = not (any forbidden_uri_byte s)

abbrev pub status_from_curl : ℕ → ℕ
status_from_curl n = if n == 28 then 504 else 502

pub data Reject : Type 0 where
  dup_control : Reject
  missing_auth : Reject
  bad_auth_format : Reject
  bad_target : Reject
  bad_method : Reject
  bad_origin_proto : Reject
  bad_cache_ttl : Reject
  header_too_long : Reject
  tunnel_unavailable : Reject
  internal_error : Reject
  upstream_reset : Reject
  upstream_protocol : Reject

unfoldable pub reject_xmq : Reject → List ℕ
reject_xmq dup_control = ascii "duplicate-control-header"
reject_xmq missing_auth = ascii "missing-auth"
reject_xmq bad_auth_format = ascii "bad-auth-format"
reject_xmq bad_target = ascii "bad-target"
reject_xmq bad_method = ascii "bad-method"
reject_xmq bad_origin_proto = ascii "bad-origin-protocol"
reject_xmq bad_cache_ttl = ascii "bad-cache-ttl"
reject_xmq header_too_long = ascii "header-too-long"
reject_xmq tunnel_unavailable = ascii "tunnel-unavailable"
reject_xmq internal_error = ascii "internal-error"
reject_xmq upstream_reset = ascii "upstream-reset"
reject_xmq upstream_protocol = ascii "upstream-protocol"

unfoldable pub reject_status : Reject → ℕ
reject_status tunnel_unavailable = 502
reject_status internal_error = 502
reject_status upstream_reset = 502
reject_status upstream_protocol = 502
reject_status r = 400
