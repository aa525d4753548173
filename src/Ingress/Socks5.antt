-- ===== src/Ingress/Socks5.antt =====
-- crates/mq-proxy/src/ingress/socks5.rs: the SOCKS5 parser and its replies. Whether bytes are UTF-8
-- is `std::str::from_utf8`'s to say: `is_utf8` is a parameter.
pub mod Laws
use mqproxy.Prelude.{
  ℕ, ◌+◌, ◌-◌, ◌*◌, ◌/◌, ◌%◌, List, [], ◌∷◌, ◌++◌, Option, none, some, Bool, true, false, not, ◌&&◌,
  ◌||◌, ltb, ◌==◌, if◌then◌else◌, length, take, drop,
}
use mqproxy.Wire.Frames.Codes.{TcpErr}
use mqproxy.Ingress.Request.{
  IpAddr, v4, v6, Host, ip, domain, Target, Progress, need, done, associate, reply, close, window,
  close_at_cap,
}

abbrev pub ver : ℕ
ver = 0x05

abbrev pub cmd_connect : ℕ
cmd_connect = 0x01

abbrev pub cmd_associate : ℕ
cmd_associate = 0x03

abbrev pub method_ok : List ℕ
method_ok = ver ∷ 0x00 ∷ []

abbrev pub method_none : List ℕ
method_none = ver ∷ 0xFF ∷ []

-- VER REP RSV ATYP BND.ADDR BND.PORT, with a zero IPv4 address.
unfoldable pub reply_of : ℕ → List ℕ
reply_of rep = ver ∷ rep ∷ 0 ∷ 1 ∷ 0 ∷ 0 ∷ 0 ∷ 0 ∷ 0 ∷ 0 ∷ []

unfoldable pub contains : ℕ → List ℕ → Bool
contains m [] = false
contains m (x ∷ xs) = (x == m) || contains m xs

-- The new `greeted`, and the progress.
unfoldable pub greeting : List ℕ → Bool × Progress
greeting [] = (false, need)
greeting (v ∷ []) = (false, need)
greeting (v ∷ n ∷ methods) =
    if not (v == ver)
    then (false, close)
    else if ltb (length methods) n
    then (false, need)
    else if not (contains 0x00 (take n methods))
    then (false, reply 0 method_none true)
    else (true, reply (2 + n) method_ok false)

unfoldable pub refuse : ℕ → Progress
unfolding reply_of
refuse rep = reply 0 (reply_of rep) true

-- Where the address starts and its length; `none` where the length byte is still missing.
pub data Span : Type 0 where
  at : ℕ → ℕ → Span
  missing : Span
  unsupported : Span

unfoldable pub span : ℕ → List ℕ → Span
span atyp [] =
    if atyp == 0x01
    then at 4 4
    else if atyp == 0x04
    then at 4 16
    else if atyp == 0x03
    then missing
    else unsupported
span atyp (n ∷ rest) =
    if atyp == 0x01
    then at 4 4
    else if atyp == 0x04
    then at 4 16
    else if atyp == 0x03
    then at 5 n
    else unsupported

-- `u16::from_be_bytes` of the two bytes at `i`.
unfoldable pub be_u16 : List ℕ → ℕ
be_u16 (a ∷ b ∷ _) = a * 256 + b
be_u16 _ = 0

module _ (is_utf8 : List ℕ → Bool) where
  -- The host, unless it is a name that is not UTF-8.
  unfoldable pub host_of : ℕ → List ℕ → Option Host
  host_of atyp addr =
      if atyp == 0x01
      then some (ip (v4 addr))
      else if atyp == 0x04
      then some (ip (v6 addr))
      else if is_utf8 addr
      then some (domain addr)
      else none

  -- The request `b` has an address of `len` bytes at `off`.
  unfoldable pub request_at : List ℕ → ℕ → ℕ → ℕ → ℕ → Progress
  unfolding host_of be_u16 refuse
  request_at b cmd atyp off len =
      let total = off + len + 2 in
      if ltb (length b) total
      then need
      else if cmd == cmd_associate
      then associate total
      else elim (host_of atyp (take len (drop off b))) [
        | none ↦ refuse 0x08
        | some host ↦ done total (record { host = host; port = be_u16 (drop (total - 2) b) })
      ]

  unfoldable pub request : List ℕ → Progress
  unfolding span request_at refuse
  request (v ∷ cmd ∷ rsv ∷ atyp ∷ rest) =
      if not (v == ver)
      then close
      else if not (cmd == cmd_connect) && not (cmd == cmd_associate)
      then refuse 0x07
      else elim (span atyp rest) [
        | at off len ↦ request_at (v ∷ cmd ∷ rsv ∷ atyp ∷ rest) cmd atyp off len
        | missing ↦ need
        | unsupported ↦ refuse 0x08
      ]
  request _ = need

  -- `Socks5Parser::feed`: the state is `greeted`.
  unfoldable pub feed : Bool → List ℕ → Bool × Progress
  feed true buf = (true, close_at_cap buf (request (window buf)))
  feed false buf = let (greeted, p) = greeting (window buf) in (greeted, close_at_cap buf p)

unfoldable pub success_reply : List ℕ
unfolding reply_of
success_reply = reply_of 0x00

unfoldable pub assoc_refused_reply : List ℕ
unfolding reply_of
assoc_refused_reply = reply_of 0x07

unfoldable pub error_reply : TcpErr → List ℕ
unfolding reply_of
error_reply TcpErr.dns_failed = reply_of 0x04
error_reply TcpErr.conn_refused = reply_of 0x05
error_reply TcpErr.timeout = reply_of 0x06
error_reply TcpErr.policy_denied = reply_of 0x02
error_reply TcpErr.ok = reply_of 0x01

-- The bound address: the four or sixteen octets, and the port.
unfoldable pub assoc_reply : IpAddr → ℕ → List ℕ
assoc_reply (v4 octets) port = ver ∷ 0 ∷ 0 ∷ 1 ∷ (octets ++ (port / 256 % 256 ∷ port % 256 ∷ []))
assoc_reply (v6 octets) port = ver ∷ 0 ∷ 0 ∷ 4 ∷ (octets ++ (port / 256 % 256 ∷ port % 256 ∷ []))
