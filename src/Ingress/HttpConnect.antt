-- ===== src/Ingress/HttpConnect.antt =====
-- crates/mq-proxy/src/ingress/http_connect.rs: the HTTP CONNECT parser and its replies.
pub mod Laws
use mqproxy.Prelude.{
  ℕ, ◌+◌, ◌-◌, ◌*◌, List, [], ◌∷◌, ◌++◌, Bool, true, false, not, ◌&&◌, ◌||◌, Option, none, some,
  ltb, leb, ◌==◌, if◌then◌else◌, length, take, drop,
}
use mqproxy.Prelude.Options.{◌>>=◌}
use mqproxy.Prelude.Bytes.{
  same_bytes, starts_with, find, find_byte, rfind_byte, all, is_empty, is_digit,
}
use mqproxy.Wire.Frames.Codes.{TcpErr}
use mqproxy.Ingress.Request.{
  IpAddr, Host, Target, Progress, need, done, reply, capped, v4, v6, ip, domain,
}

abbrev pub max_host : ℕ
max_host = 255

-- "HTTP/1.1 405 Method Not Allowed", and a blank line.
abbrev pub r405 : List ℕ
r405 =
    72 ∷ 84 ∷ 84 ∷ 80 ∷ 47 ∷ 49 ∷ 46 ∷ 49 ∷ 32 ∷ 52 ∷ 48 ∷ 53 ∷ 32 ∷ 77 ∷ 101 ∷ 116 ∷ 104 ∷ 111
    ∷ 100 ∷ 32 ∷ 78 ∷ 111 ∷ 116 ∷ 32 ∷ 65 ∷ 108 ∷ 108 ∷ 111 ∷ 119 ∷ 101 ∷ 100 ∷ 13 ∷ 10 ∷ 13 ∷ 10
    ∷ []

-- "HTTP/1.1 400 Bad Request", and a blank line.
abbrev pub r400 : List ℕ
r400 =
    72 ∷ 84 ∷ 84 ∷ 80 ∷ 47 ∷ 49 ∷ 46 ∷ 49 ∷ 32 ∷ 52 ∷ 48 ∷ 48 ∷ 32 ∷ 66 ∷ 97 ∷ 100 ∷ 32 ∷ 82 ∷ 101
    ∷ 113 ∷ 117 ∷ 101 ∷ 115 ∷ 116 ∷ 13 ∷ 10 ∷ 13 ∷ 10 ∷ []

abbrev pub crlf : List ℕ
crlf = 13 ∷ 10 ∷ []

abbrev pub blank_line : List ℕ
blank_line = 13 ∷ 10 ∷ 13 ∷ 10 ∷ []

-- "CONNECT".
abbrev pub connect : List ℕ
connect = 67 ∷ 79 ∷ 78 ∷ 78 ∷ 69 ∷ 67 ∷ 84 ∷ []

-- "HTTP/".
abbrev pub http_slash : List ℕ
http_slash = 72 ∷ 84 ∷ 84 ∷ 80 ∷ 47 ∷ []

abbrev pub bad : Progress
bad = reply 0 r400 true

unfoldable pub or_zero : Option ℕ → ℕ
or_zero none = 0
or_zero (some n) = n

-- A step of `splitn`: what comes before the first space, and what comes after.
unfoldable pub split_space : List ℕ → List ℕ × Option (List ℕ)
split_space xs = elim (find_byte xs 32) [
  | none ↦ (xs, none)
  | some i ↦ (take i xs, some (drop (i + 1) xs))
]

unfoldable pub decimal : ℕ → List ℕ → ℕ
decimal v [] = v
decimal v (c ∷ cs) = decimal (v * 10 + (c - 48)) cs

unfoldable pub parse_port : List ℕ → Option ℕ
unfolding decimal
parse_port t =
    if is_empty t || ltb 5 (length t) || not (all is_digit t)
    then none
    else let v = decimal 0 t in if ltb v 65536 && not (v == 0) then some v else none

-- The last byte goes if it is `b`.
unfoldable pub strip_suffix : List ℕ → ℕ → Option (List ℕ)
strip_suffix [] b = none
strip_suffix (x ∷ []) b = if x == b then some [] else none
strip_suffix (x ∷ y ∷ xs) b = do rest ← strip_suffix (y ∷ xs) b; some (x ∷ rest)

-- Rust's UTF-8 check, and its parsers of IP literals, which give the octets.
module _ (is_utf8 : List ℕ → Bool) (parse_v4 parse_v6 : List ℕ → Option (List ℕ)) where
  unfoldable pub plain_host : List ℕ → Option Host
  plain_host s =
      if is_empty s || ltb max_host (length s)
      then none
      else elim (parse_v4 s) [ none ↦ some (domain s) | some octets ↦ some (ip (v4 octets)) ]

  unfoldable pub bracket_host : List ℕ → Option Host
  unfolding strip_suffix
  bracket_host inner = do
    literal ← strip_suffix inner 93
    octets ← parse_v6 literal
    some (ip (v6 octets))

  unfoldable pub parse_host : List ℕ → Option Host
  unfolding plain_host bracket_host
  parse_host h =
      if not (is_utf8 h)
      then none
      else if starts_with h (91 ∷ [])
      then bracket_host (drop 1 h)
      else plain_host h

  -- `host:port`, split on the last colon.
  unfoldable pub authority : List ℕ → Option Target
  unfolding parse_host
  authority target = do
    colon ← rfind_byte target 58
    port ← parse_port (drop (colon + 1) target)
    host ← parse_host (take colon target)
    some (record { host = host; port = port })

  unfoldable pub done_or_bad : ℕ → Option Target → Progress
  done_or_bad hend none = bad
  done_or_bad hend (some t) = done hend t

  -- What follows the method.
  unfoldable pub after_method : ℕ → List ℕ → Progress
  unfolding split_space authority done_or_bad
  after_method hend rest =
      let (target, version) = split_space rest in
      elim version [
        | none ↦ bad
        | some version ↦
            if is_empty target || not (starts_with version http_slash)
            then bad
            else done_or_bad hend (authority target)
      ]

  -- The request line of a head that ends at `hend`.
  unfoldable pub request_line : ℕ → List ℕ → Progress
  unfolding split_space after_method
  request_line hend line =
      let (method, rest) = split_space line in
      elim rest [
        | none ↦ bad
        | some rest ↦
            if is_empty method
            then bad
            else if not (same_bytes method connect)
            then reply 0 r405 true
            else after_method hend rest
      ]

  unfoldable pub parse : List ℕ → Progress
  unfolding request_line or_zero
  parse buf = elim (find buf blank_line) [
    | none ↦ need
    | some p ↦ request_line (p + 4) (take (or_zero (find buf crlf)) buf)
  ]

  unfoldable pub feed : List ℕ → Progress
  unfolding parse
  feed buf = capped buf parse

-- "HTTP/1.1 200 Connection Established", and a blank line.
abbrev pub http_success_reply : List ℕ
http_success_reply =
    72 ∷ 84 ∷ 84 ∷ 80 ∷ 47 ∷ 49 ∷ 46 ∷ 49 ∷ 32 ∷ 50 ∷ 48 ∷ 48 ∷ 32 ∷ 67 ∷ 111 ∷ 110 ∷ 110 ∷ 101 ∷ 99
    ∷ 116 ∷ 105 ∷ 111 ∷ 110 ∷ 32 ∷ 69 ∷ 115 ∷ 116 ∷ 97 ∷ 98 ∷ 108 ∷ 105 ∷ 115 ∷ 104 ∷ 101 ∷ 100 ∷ 13
    ∷ 10 ∷ 13 ∷ 10 ∷ []

-- "HTTP/1.1 504 Gateway Timeout", "403 Forbidden" and "502 Bad Gateway".
abbrev pub http_error_reply : TcpErr → List ℕ
http_error_reply TcpErr.timeout =
    72 ∷ 84 ∷ 84 ∷ 80 ∷ 47 ∷ 49 ∷ 46 ∷ 49 ∷ 32 ∷ 53 ∷ 48 ∷ 52 ∷ 32 ∷ 71 ∷ 97 ∷ 116 ∷ 101 ∷ 119 ∷ 97
    ∷ 121 ∷ 32 ∷ 84 ∷ 105 ∷ 109 ∷ 101 ∷ 111 ∷ 117 ∷ 116 ∷ 13 ∷ 10 ∷ 13 ∷ 10 ∷ []
http_error_reply TcpErr.policy_denied =
    72 ∷ 84 ∷ 84 ∷ 80 ∷ 47 ∷ 49 ∷ 46 ∷ 49 ∷ 32 ∷ 52 ∷ 48 ∷ 51 ∷ 32 ∷ 70 ∷ 111 ∷ 114 ∷ 98 ∷ 105 ∷ 100
    ∷ 100 ∷ 101 ∷ 110 ∷ 13 ∷ 10 ∷ 13 ∷ 10 ∷ []
http_error_reply TcpErr.dns_failed =
    72 ∷ 84 ∷ 84 ∷ 80 ∷ 47 ∷ 49 ∷ 46 ∷ 49 ∷ 32 ∷ 53 ∷ 48 ∷ 50 ∷ 32 ∷ 66 ∷ 97 ∷ 100 ∷ 32 ∷ 71 ∷ 97
    ∷ 116 ∷ 101 ∷ 119 ∷ 97 ∷ 121 ∷ 13 ∷ 10 ∷ 13 ∷ 10 ∷ []
http_error_reply TcpErr.conn_refused =
    72 ∷ 84 ∷ 84 ∷ 80 ∷ 47 ∷ 49 ∷ 46 ∷ 49 ∷ 32 ∷ 53 ∷ 48 ∷ 50 ∷ 32 ∷ 66 ∷ 97 ∷ 100 ∷ 32 ∷ 71 ∷ 97
    ∷ 116 ∷ 101 ∷ 119 ∷ 97 ∷ 121 ∷ 13 ∷ 10 ∷ 13 ∷ 10 ∷ []
http_error_reply TcpErr.ok =
    72 ∷ 84 ∷ 84 ∷ 80 ∷ 47 ∷ 49 ∷ 46 ∷ 49 ∷ 32 ∷ 53 ∷ 48 ∷ 50 ∷ 32 ∷ 66 ∷ 97 ∷ 100 ∷ 32 ∷ 71 ∷ 97
    ∷ 116 ∷ 101 ∷ 119 ∷ 97 ∷ 121 ∷ 13 ∷ 10 ∷ 13 ∷ 10 ∷ []
