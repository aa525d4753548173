-- ===== src/Tests/GatewayTests.antt =====
-- Runs of the gateway's rules of crates/mq-http/src/headers.rs, and of the interception policy of
-- crates/mq-proxy/src/client/mitm/policy.rs.
use mqproxy.Prelude.{
  ℕ, ◌<◌, ◌≤◌, ◌≡◌, ◌↔◌, refl, List, [], ◌∷◌, Bool, true, false, some, none, arith, All, leb,
  length, map, ◌&&◌, ◌||◌,
}
use mqproxy.Prelude.Bytes.{lower, same_ignoring_case}
use mqproxy.Prelude.Sets.{has}
use mqproxy.Prelude.Text.{ascii}
use mqproxy.Http.Target.{Target, parse_target}
use mqproxy.Http.Target.Laws.{IsTarget, render, parse_target-IsTarget, parse_target-render}
use mqproxy.Http.Rules.{parse_cache_ttl, strip_client, strip_server}
use mqproxy.Http.Rules.Laws.{strip_any_case}
use mqproxy.Client.Mitm.Policy.{
  bytes_key, ends_with_dot, canonical, MitmPolicy, matches, covers, domain, mitm, route,
}
use mqproxy.Client.Mitm.Policy.Laws.{under_any, matches_scan}
use mqproxy.Client.Mitm.Policy.Names.{canonical_again, route_mitm}

abbrev a_url : List ℕ
a_url = ascii "https://a.b:80?q"

abbrev a_target : Target
a_target = record { scheme = ascii "https"; authority = ascii "a.b:80"; path = ascii "/?q" }

target_run : parse_target a_url ≡ some a_target
unfolding parse_target
target_run = refl

target_at_run : parse_target (ascii "http://a@b/") ≡ none
unfolding parse_target
target_at_run = refl

target_ip_run :
    parse_target (ascii "http://[::1]:8/x")
    ≡ some (record { scheme = ascii "http"; authority = ascii "[::1]:8"; path = ascii "/x" })
unfolding parse_target
target_ip_run = refl

parse_target-IsTarget_example : IsTarget a_target
parse_target-IsTarget_example = parse_target-IsTarget a_url a_target target_run

parse_target-render_example : parse_target (render a_target) ≡ some a_target
parse_target-render_example = parse_target-render a_url a_target target_run

two_spellings : same_ignoring_case (ascii "X-Mq-Target") (ascii "x-MQ-target") ≡ true
unfolding same_ignoring_case
two_spellings = refl

strip_any_case_example :
    (strip_client (ascii "X-Mq-Target") true ≡ strip_client (ascii "x-MQ-target") true)
    × (strip_server (ascii "X-Mq-Target") ≡ strip_server (ascii "x-MQ-target"))
strip_any_case_example =
    strip_any_case (ascii "X-Mq-Target") (ascii "x-MQ-target") two_spellings true

ttl_run : parse_cache_ttl (ascii "3600") ≡ 3600
unfolding parse_cache_ttl
ttl_run = refl

-- ASCII is UTF-8.
unfoldable is_utf8 : List ℕ → Bool
is_utf8 [] = true
is_utf8 (c ∷ s) = leb c 127 && is_utf8 s

ascii_is_utf8 : (s : List ℕ) → All (λ c. c < 128) s → is_utf8 s ≡ true
unfolding is_utf8
ascii_is_utf8 [] h = refl
ascii_is_utf8 (c ∷ s) (small, rest) =
    let q : leb c 127 ≡ true = ground (arith, small) in rw (q, ascii_is_utf8 s rest) refl

-- No name is an IP literal.
abbrev no_ip : List ℕ → Bool
no_ip s = false

canonical_run : canonical is_utf8 no_ip (ascii "Www.Example.") ≡ some (ascii "www.example")
unfolding canonical is_utf8
canonical_run = refl

canonical_again_example :
    (canonical is_utf8 no_ip (ascii "www.example") ≡ some (ascii "www.example"))
    × (map lower (ascii "www.example") ≡ ascii "www.example")
    × (1 ≤ length (ascii "www.example"))
    × (length (ascii "www.example") ≤ 253)
    × All (λ c. c < 128) (ascii "www.example")
    × (ends_with_dot (ascii "www.example") ≡ false)
    × (no_ip (ascii "www.example") ≡ false)
canonical_again_example =
    canonical_again is_utf8 no_ip (ascii "Www.Example.") (ascii "www.example") ascii_is_utf8
      canonical_run

-- Everything under ".bank" is relayed as it is.
abbrev a_policy : MitmPolicy
a_policy = record {
  ignore = record { exact = ascii "pin.example" ∷ []; suffix = ascii "bank" ∷ [] };
  scope = record { permitted = []; excluded = domain (ascii "local") ∷ [] };
}

matches_scan_example : matches a_policy.ignore (ascii "a.bank") ≡ (
    has (ascii "a.bank") a_policy.ignore.exact || under_any a_policy.ignore.suffix (ascii "a.bank"))
matches_scan_example = matches_scan a_policy.ignore (ascii "a.bank")

matches_run : matches a_policy.ignore (ascii "a.bank") ≡ true
unfolding matches
matches_run = refl

route_run :
    route is_utf8 no_ip a_policy (some (ascii "Www.Example.")) true ≡ mitm (ascii "www.example")
unfolding route is_utf8
route_run = refl

route_mitm_example :
    (route is_utf8 no_ip a_policy (some (ascii "Www.Example.")) true ≡ mitm (ascii "www.example"))
    ↔ ((raw : List ℕ) × (some (ascii "Www.Example.") ≡ some raw)
        × (canonical is_utf8 no_ip raw ≡ some (ascii "www.example"))
        × (true ≡ true)
        × (has (ascii "www.example") a_policy.ignore.exact ≡ false)
        × (under_any a_policy.ignore.suffix (ascii "www.example") ≡ false)
        × (covers a_policy.scope (ascii "www.example") ≡ true))
route_mitm_example =
    route_mitm is_utf8 no_ip a_policy (some (ascii "Www.Example.")) true (ascii "www.example")
