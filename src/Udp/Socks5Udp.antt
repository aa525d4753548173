-- ===== src/Udp/Socks5Udp.antt =====
-- crates/mq-proxy/src/udp/socks5udp.rs: the SOCKS5 UDP encapsulation header.
-- `target_of` reads names as UTF-8 and is not modelled here.
pub mod Laws
use mqproxy.Prelude.{
  ℕ, ◌+◌, ◌-◌, ◌*◌, ◌/◌, ◌%◌, List, [], ◌∷◌, ◌++◌, Option, none, some, Bool, true, false, ◌&&◌,
  ◌==◌, leb, if◌then◌else◌, length, take, drop,
}
use mqproxy.Prelude.Options.{◌>>=◌}
use mqproxy.Wire.Frames.Codes.{AddrType, addr_type_from_raw, addr_type_as_u8}

-- DST.ADDR without its length byte.
pub record Dst : Type 0 where
  pub atype : AddrType
  pub addr : List ℕ
  pub port : ℕ

-- `buf.get(from..from + len)`.
unfoldable pub get_range : List ℕ → ℕ → ℕ → Option (List ℕ)
get_range buf from len =
    if leb (from + len) (length buf) then some (take len (drop from buf)) else none

-- `u16::from_be_bytes` of two bytes.
unfoldable pub be_u16 : List ℕ → ℕ
be_u16 (a ∷ b ∷ _) = a * 256 + b
be_u16 _ = 0

unfoldable pub first : List ℕ → Option ℕ
first [] = none
first (b ∷ bs) = some b

-- Where the address starts, and its length.
unfoldable pub addr_span : AddrType → List ℕ → Option (ℕ × ℕ)
unfolding first
addr_span AddrType.ipv4 rest = some (4, 4)
addr_span AddrType.ipv6 rest = some (4, 16)
addr_span AddrType.domain rest = do n ← first rest; some (5, n)

-- The part of `parse` behind the four fixed bytes.
unfoldable pub parse_dst : List ℕ → ℕ → List ℕ → Option (Dst × ℕ)
parse_dst buf atyp rest = do
  atype ← addr_type_from_raw atyp
  (off, len) ← addr_span atype rest
  addr ← get_range buf off len
  port ← get_range buf (off + len) 2
  some (record { atype = atype; addr = addr; port = be_u16 port }, off + len + 2)

-- The destination, and where the payload starts.
unfoldable pub parse : List ℕ → Option (Dst × ℕ)
parse (rsv0 ∷ rsv1 ∷ frag ∷ atyp ∷ rest) =
    if (rsv0 == 0) && (rsv1 == 0) && (frag == 0)
    then parse_dst (rsv0 ∷ rsv1 ∷ frag ∷ atyp ∷ rest) atyp rest
    else none
parse _ = none

unfoldable pub name_len : Dst → List ℕ
name_len dst = elim dst.atype [
  | AddrType.ipv4 ↦ []
  | AddrType.domain ↦ length dst.addr % 256 ∷ []
  | AddrType.ipv6 ↦ []
]

-- The buffer with the header appended, and the bytes appended. `as u8` wraps.
unfoldable pub build : List ℕ → Dst → List ℕ × ℕ
unfolding name_len
build out dst =
    let out' =
      out
      ++ (0
          ∷ 0
          ∷ 0
          ∷ addr_type_as_u8 dst.atype
          ∷ (name_len dst ++ (dst.addr ++ (dst.port / 256 % 256 ∷ dst.port % 256 ∷ [])))) in
    (out', length out' - length out)
