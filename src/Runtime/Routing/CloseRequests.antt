-- ===== src/Runtime/Routing/CloseRequests.antt =====
-- The requests to close a socket of crates/mq-runtime/src/shard/routing.rs are one for each socket that leaves.
use mqproxy.Prelude.{
  ℕ, ◌+◌, List, [], ◌∷◌, ◌++◌, true, false, Option, none, some, ◌==◌, ◌≡◌, if◌then◌else◌, ==_iff,
  ap, refl, sym, ◌∙◌, Bool-cases, inl, inr, arith,
}
use mqproxy.Prelude.Maps.{nat_key, lookup, erase, lookup-erase_self, lookup-erase_ne}
use mqproxy.Runtime.Routing.{
  UdpEntry, IoRequest, close_socket, ShardState, close_found, close_udp_socket, close_all,
}

-- How often the driver is asked to close a socket.
unfoldable pub requests_of : ℕ → List IoRequest → ℕ
requests_of sock [] = 0
requests_of sock (close_socket s ∷ reqs) =
    let n = requests_of sock reqs in if s == sock then n + 1 else n

abbrev pub open_count : Option UdpEntry → ℕ
open_count none = 0
open_count (some e) = 1

requests_of-append :
    (sock s : ℕ) (reqs : List IoRequest)
    → requests_of sock (reqs ++ (close_socket s ∷ []))
      ≡ requests_of sock reqs + (if s == sock then 1 else 0)
unfolding requests_of
requests_of-append sock s [] = elim (Bool-cases (s == sock)) [
  | inl hit ↦ rw hit refl
  | inr miss ↦ rw miss refl
]
requests_of-append sock s (close_socket r ∷ reqs) =
    let rest = requests_of-append sock s reqs in
    elim (Bool-cases (r == sock)) [
      | inl hit ↦ rw hit (omega (arith, rest))
      | inr miss ↦ rw miss rest
    ]

-- The requests to close a socket, and one more while it is open.
abbrev pub balance : ShardState → ℕ → ℕ
balance st s = requests_of s st.requests + open_count (lookup s st.udp)

balance-close_found :
    (st : ShardState) (sock s : ℕ) (o : Option UdpEntry)
    → lookup sock st.udp ≡ o
    → balance (close_found st sock o) s ≡ balance st s
balance-close_found st sock s none at = refl
balance-close_found st sock s (some x) at =
    let asked = requests_of-append s sock st.requests in
    elim (Bool-cases (sock == s)) [
      | inl hit ↦
          let q : sock ≡ s = (==_iff sock s).0 hit in
          let asked' : requests_of s (st.requests ++ (close_socket sock ∷ []))
              ≡ requests_of s st.requests + 1 =
            asked ∙ ap (λ b. requests_of s st.requests + (if b then 1 else 0)) hit in
          let before : lookup s st.udp ≡ some x = ap (λ y. lookup y st.udp) (sym q) ∙ at in
          let after : lookup s (erase sock st.udp) ≡ none =
            ap (λ y. lookup y (erase sock st.udp)) (sym q) ∙ lookup-erase_self sock st.udp in
          rw (before, after) (omega (arith, asked'))
      | inr miss ↦
          let asked' : requests_of s (st.requests ++ (close_socket sock ∷ []))
              ≡ requests_of s st.requests + 0 =
            asked ∙ ap (λ b. requests_of s st.requests + (if b then 1 else 0)) miss in
          let same : lookup s (erase sock st.udp) ≡ lookup s st.udp =
            lookup-erase_ne sock s st.udp (λ q. contrary (sym ((==_iff sock s).1 q) ∙ miss)) in
          rw same (omega (arith, asked'))
    ]
  where
    contrary : true ≡ false → ⊥
    contrary e = cc

balance-close_udp_socket :
    (st : ShardState) (sock s : ℕ) → balance (close_udp_socket st sock) s ≡ balance st s
unfolding close_udp_socket
balance-close_udp_socket st sock s = elim (Bool-cases (sock == st.primary_udp)) [
  | inl primary ↦ rw primary refl
  | inr other ↦ rw other (balance-close_found st sock s (lookup sock st.udp) refl)
]

-- A socket that leaves is one that the driver is asked to close, and no other is.
pub balance-close_all :
    (st : ShardState) (socks : List ℕ) (s : ℕ) → balance (close_all st socks) s ≡ balance st s
unfolding close_all
balance-close_all st [] s = refl
balance-close_all st (sock ∷ socks) s =
    balance-close_all (close_udp_socket st sock) socks s ∙ balance-close_udp_socket st sock s
