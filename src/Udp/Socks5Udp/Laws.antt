-- ===== src/Udp/Socks5Udp/Laws.antt =====
-- The header of crates/mq-proxy/src/udp/socks5udp.rs is read back as it was built.
use mqproxy.Prelude.{
  ℕ, ◌+◌, ◌-◌, ◌/◌, ◌%◌, ◌≤◌, ◌≡◌, refl, ap, ◌∙◌, List, [], ◌∷◌, ◌++◌, some, leb, length,
  length-append, arith, true, IsU16, take, drop, take-length-append, drop-length-append,
  append_assoc,
}
use mqproxy.Wire.Frames.Codes.{AddrType, addr_type_as_u8, addr_type_from_raw-as_u8}
use mqproxy.Wire.Frames.Cursor.Laws.{port_value}
use mqproxy.Udp.Socks5Udp.{Dst, parse, parse_dst, build, get_range, be_u16, addr_span, first}

-- An address of the length of its type: a name has at most 255 bytes.
abbrev pub FitsType : AddrType → ℕ → Type 0
FitsType AddrType.ipv4 n = n ≡ 4
FitsType AddrType.ipv6 n = n ≡ 16
FitsType AddrType.domain n = n ≤ 255

-- What lies at a known place.
range_at :
    (pre xs post : List ℕ) (from len : ℕ)
    → length pre ≡ from
    → length xs ≡ len
    → get_range (pre ++ (xs ++ post)) from len ≡ some xs
unfolding get_range
range_at pre xs post from len h k =
    let l : length (pre ++ (xs ++ post)) ≡ length pre + (length xs + length post) =
      length-append pre (xs ++ post) ∙ ap (◌+◌ (length pre)) (length-append xs post) in
    let c : leb (from + len) (length (pre ++ (xs ++ post))) ≡ true = ground arith in
    rw c (rw (← h, ← k, drop-length-append pre (xs ++ post), take-length-append xs post))

parts :
    (pre addr payload : List ℕ) (off len port : ℕ)
    → length pre ≡ off
    → length addr ≡ len
    → let buf = pre ++ (addr ++ (port / 256 % 256 ∷ port % 256 ∷ payload)) in
      (get_range buf off len ≡ some addr)
      × (get_range buf (off + len) 2 ≡ some (port / 256 % 256 ∷ port % 256 ∷ []))
parts pre addr payload off len port h k = (
  range_at pre addr _ off len h k,
  rw append_assoc at (
      range_at (pre ++ addr) (port / 256 % 256 ∷ port % 256 ∷ []) payload (off + len) 2
        (omega (arith, length-append pre addr)) refl),
)

-- `parse_dst` behind a prefix whose length is the offset of the address.
parsed :
    (t : AddrType) (pre addr payload rest : List ℕ) (len port : ℕ)
    → addr_span t rest ≡ some (length pre, len)
    → length addr ≡ len
    → IsU16 port
    → parse_dst
        (pre ++ (addr ++ (port / 256 % 256 ∷ port % 256 ∷ payload)))
        (addr_type_as_u8 t)
        rest
      ≡ some (record { atype = t; addr = addr; port = port }, length pre + len + 2)
unfolding parse_dst be_u16
parsed t pre addr payload rest len port e k p =
    let (one, two) = parts pre addr payload (length pre) len port refl k in
    rw (addr_type_from_raw-as_u8 t, e, one, two, port_value port p)

built :
    (k : ℕ) (addr : List ℕ) (len port : ℕ)
    → length addr ≡ len
    → k + len + 2 ≡ k + length (addr ++ (port / 256 % 256 ∷ port % 256 ∷ [])) - 0
built k addr len port h = omega (arith, length-append addr (port / 256 % 256 ∷ port % 256 ∷ []))

parse-build_of :
    (t : AddrType) (addr : List ℕ) (port : ℕ) (payload : List ℕ)
    → IsU16 port
    → FitsType t (length addr)
    → let dst : Dst = record { atype = t; addr = addr; port = port } in
      parse ((build [] dst).0 ++ payload) ≡ some (dst, (build [] dst).1)
unfolding parse build addr_span first addr_type_as_u8
parse-build_of AddrType.ipv4 addr port payload p f =
    let tail = addr ++ (port / 256 % 256 ∷ port % 256 ∷ payload) in
    rw (append_assoc addr (port / 256 % 256 ∷ port % 256 ∷ []) payload) (
      parsed AddrType.ipv4 (0 ∷ 0 ∷ 0 ∷ 1 ∷ []) addr payload tail 4 port refl f p
      ∙ ap (λ n. some (record { atype = AddrType.ipv4; addr = addr; port = port }, n))
          (ground (arith, built 4 addr 4 port f)))
parse-build_of AddrType.ipv6 addr port payload p f =
    let tail = addr ++ (port / 256 % 256 ∷ port % 256 ∷ payload) in
    rw (append_assoc addr (port / 256 % 256 ∷ port % 256 ∷ []) payload) (
      parsed AddrType.ipv6 (0 ∷ 0 ∷ 0 ∷ 4 ∷ []) addr payload tail 16 port refl f p
      ∙ ap (λ n. some (record { atype = AddrType.ipv6; addr = addr; port = port }, n))
          (ground (arith, built 4 addr 16 port f)))
parse-build_of AddrType.domain addr port payload p f =
    let tail = addr ++ (port / 256 % 256 ∷ port % 256 ∷ payload) in
    let small : length addr % 256 ≡ length addr = omega arith in
    rw (small, append_assoc addr (port / 256 % 256 ∷ port % 256 ∷ []) payload)
      (parsed AddrType.domain (0 ∷ 0 ∷ 0 ∷ 3 ∷ length addr ∷ []) addr payload (length addr ∷ tail)
          (length addr) port refl refl p
        ∙ ap (λ n. some (record { atype = AddrType.domain; addr = addr; port = port }, n))
            (ground (arith, built 5 addr (length addr) port refl)))

-- The header does not depend on the buffer that it goes to the end of.
build-append :
    (out : List ℕ) (dst : Dst)
    → ((build out dst).0 ≡ out ++ (build [] dst).0) × ((build out dst).1 ≡ (build [] dst).1)
unfolding build
build-append out dst = (refl, omega (arith, length-append out (build [] dst).0))

-- `build` keeps the buffer and appends a header. What stands behind the old end is read back by `parse`, whatever
-- payload follows, for a u16 port and an address of the length of its type, and the length that `build` returns is
-- the offset of that payload, which does not count the bytes of the buffer.
pub parse-build :
    (out : List ℕ) (dst : Dst) (payload : List ℕ)
    → IsU16 dst.port
    → FitsType dst.atype (length dst.addr)
    → (take (length out) (build out dst).0 ≡ out)
      × (parse (drop (length out) (build out dst).0 ++ payload) ≡ some (dst, (build out dst).1))
parse-build out dst payload p f =
    let (bytes, appended) = build-append out dst in
    let header = (build [] dst).0 in
    (
      ap (take (length out)) bytes ∙ take-length-append out header,
      rw (bytes, appended, drop-length-append out header)
          (parse-build_of dst.atype dst.addr dst.port payload p f),
    )
