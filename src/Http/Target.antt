-- ===== src/Http/Target.antt =====
-- `parse_target` of crates/mq-http/src/headers.rs: the X-Mq-Target header of a gateway request. The scheme
-- is its bytes; `none` is a reject.
pub mod Authority
pub mod Laws
use mqproxy.Prelude.{
  ℕ, suc, ◌+◌, List, [], ◌∷◌, ◌++◌, Bool, true, false, not, ◌&&◌, ◌||◌, Option, none, some, ltb,
  ◌==◌, if◌then◌else◌, length, take, drop,
}
use mqproxy.Prelude.Options.{◌>>=◌}
use mqproxy.Prelude.Bytes.{starts_with, find_byte, rfind_byte, all, any, is_empty, is_digit}
use mqproxy.Prelude.Text.{ascii}
use mqproxy.Http.Limits.{target_path_max}

abbrev pub authority_max : ℕ
authority_max = 255

pub record Target : Type 0 where
  pub scheme : List ℕ
  pub authority : List ℕ
  pub path : List ℕ

abbrev pub forbidden_uri_byte : ℕ → Bool
forbidden_uri_byte c = ltb c 32 || (c == 127) || (c == 32)

abbrev pub https : List ℕ
https = ascii "https"

abbrev pub http : List ℕ
http = ascii "http"

-- The scheme, and what follows "://".
unfoldable pub scheme_of : List ℕ → Option (List ℕ × List ℕ)
unfolding starts_with
scheme_of s =
    if starts_with s (ascii "https://")
    then some (https, drop 8 s)
    else if starts_with s (ascii "http://")
    then some (http, drop 7 s)
    else none

abbrev pub behind : ℕ → Option (List ℕ × List ℕ) → Option (List ℕ × List ℕ)
behind c none = none
behind c (some (auth, rest)) = some (c ∷ auth, rest)

-- The loop: the authority and what is behind it. `first` says that `i == off`.
unfoldable pub authority_split : Bool → Bool → List ℕ → Option (List ℕ × List ℕ)
authority_split first in_brackets [] = some ([], [])
authority_split first in_brackets (c ∷ s) =
    let opened = behind c (authority_split false true s) in
    let closed = behind c (authority_split false false s) in
    let same = behind c (authority_split false in_brackets s) in
    if c == b'['
    then (if first then opened else none)
    else if c == b']'
    then closed
    else if ((c == b'/') || (c == b'?')) && not in_brackets
    then some ([], c ∷ s)
    else same

abbrev pub is_bracketed : List ℕ → Bool
is_bracketed [] = false
is_bracketed (c ∷ auth) = c == b'['

abbrev pub bad_authority_byte : Bool → ℕ → Bool
bad_authority_byte bracketed c =
    (c == b'@') || (c == b'#') || forbidden_uri_byte c || ((c == b']') && not bracketed)

abbrev pub end_or_colon : List ℕ → ℕ → Option ℕ
end_or_colon [] from = some from
end_or_colon (c ∷ cs) from = if c == b':' then some from else none

-- Where a port may begin; after the bracket of an IPv6 literal only a colon may follow.
unfoldable pub scan_from : List ℕ → Option ℕ
unfolding find_byte
scan_from auth = if not (is_bracketed auth) then some 0 else do
  rb ← find_byte (drop 1 auth) b']'
  if rb == 0 then none else end_or_colon (drop (rb + 2) auth) (rb + 2)

-- `p` counts from `from`.
abbrev pub port_at : List ℕ → ℕ → ℕ → Bool
port_at auth from p =
    let pc = p + from in
    let port = drop (pc + 1) auth in
    not (is_empty port || not (all is_digit port) || (pc == 0))
    && (is_bracketed auth || not (any (λ c. c == b':') (take pc auth)))

abbrev pub port_if : List ℕ → ℕ → Option ℕ → Bool
port_if auth from none = true
port_if auth from (some p) = port_at auth from p

-- The checks on the authority.
unfoldable pub authority_ok : List ℕ → Bool
unfolding is_empty all any rfind_byte scan_from
authority_ok auth =
    if is_empty auth || ltb authority_max (length auth)
    then false
    else if any (bad_authority_byte (is_bracketed auth)) auth
    then false
    else elim (scan_from auth) [
      | none ↦ false
      | some from ↦ port_if auth from (rfind_byte (drop from auth) b':')
    ]

-- The path, and "/" put in front if it is missing.
abbrev pub path_of : List ℕ → List ℕ
path_of [] = ascii "/"
path_of (c ∷ rest) = if c == b'?' then b'/' ∷ c ∷ rest else c ∷ rest

unfoldable pub target_of : List ℕ → List ℕ → List ℕ → Option Target
unfolding authority_ok any
target_of scheme auth rest =
    if not (authority_ok auth)
    then none
    else if any (λ c. (c == b'#') || forbidden_uri_byte c) rest
    then none
    else if ltb target_path_max (length (path_of rest))
    then none
    else some (record { scheme = scheme; authority = auth; path = path_of rest })

unfoldable pub parse_target : List ℕ → Option Target
unfolding scheme_of authority_split target_of
parse_target s = do
  (scheme, after) ← scheme_of s
  (auth, rest) ← authority_split true false after
  target_of scheme auth rest
