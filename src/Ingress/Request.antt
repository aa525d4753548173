-- ===== src/Ingress/Request.antt =====
-- crates/mq-proxy/src/ingress/request.rs, with the dial targets of crates/mq-runtime/src/app.rs.
use mqproxy.Prelude.{
  ℕ, List, Bool, leb, length, take, if◌then◌else◌, min, ◌≤◌, ◌≢◌, arith, length-take,
}

-- An address is the list of its octets, and a name that of its UTF-8 bytes.
pub data IpAddr : Type 0 where
  v4 : List ℕ → IpAddr
  v6 : List ℕ → IpAddr

pub data Host : Type 0 where
  ip : IpAddr → Host
  domain : List ℕ → Host

pub record Target : Type 0 where
  pub host : Host
  pub port : ℕ

abbrev pub ingress_cap : ℕ
ingress_cap = 8192

pub data Progress : Type 0 where
  need : Progress
  done : ℕ → Target → Progress
  associate : ℕ → Progress
  reply : ℕ → List ℕ → Bool → Progress
  close : Progress

-- The bytes that a parser looks at: `&buf[..buf.len().min(INGRESS_CAP)]`.
abbrev pub window : List ℕ → List ℕ
window buf = take (min (length buf) ingress_cap) buf

-- A full cap with no complete request closes.
unfoldable pub close_at_cap : List ℕ → Progress → Progress
close_at_cap buf need = if leb ingress_cap (length buf) then close else need
close_at_cap buf p = p

unfoldable pub capped : List ℕ → (List ℕ → Progress) → Progress
unfolding close_at_cap
capped buf parse = close_at_cap buf (parse (window buf))

-- A buffer as long as the cap is never left waiting, whatever the parser.
pub close_at_cap-ne-need :
    (buf : List ℕ) (p : Progress) → ingress_cap ≤ length buf → close_at_cap buf p ≢ need
unfolding close_at_cap
close_at_cap-ne-need buf need h e = ground arith
close_at_cap-ne-need buf (done n t) h e = cc
close_at_cap-ne-need buf (associate n) h e = cc
close_at_cap-ne-need buf (reply n b c) h e = cc
close_at_cap-ne-need buf close h e = cc

pub length-window : (buf : List ℕ) → length (window buf) ≤ length buf
length-window buf = omega (arith, length-take (min (length buf) ingress_cap) buf)
