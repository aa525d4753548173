-- ===== src/Runtime/Routing/Closing.antt =====
-- What the end of a connection leaves of its sockets (crates/mq-runtime/src/shard/routing.rs).
use mqproxy.Prelude.{
  ℕ, List, [], ◌∷◌, Bool, true, false, not, Option, none, some, ◌==◌, ◌≡◌, ◌≢◌, ==_iff, ap, refl,
  sym, ◌∙◌, All, Bool-cases, inl, inr, ◌+◌, arith,
}
use mqproxy.Prelude.Maps.{nat_key, lookup, erase, lookup-erase_self, lookup-erase_ne}
use mqproxy.Prelude.Sets.{has}
use mqproxy.Prelude.Sorted.{insert_sorted, has-insert_sorted_self, has-insert_sorted_other}
use mqproxy.Runtime.Routing.{
  PathKey, path_key, same_path, same_path_iff, UdpEntry, ShardState, path_socket, retain,
  close_found, close_udp_socket, conn_sockets, close_all, close_conn_sockets,
}
use mqproxy.Runtime.Routing.CloseRequests.{requests_of, open_count, balance-close_all}
use mqproxy.Runtime.Routing.Invariant.{All-retain, retain_kept}

has-conn_sockets :
    (k : PathKey) (sock : ℕ) (paths : List (PathKey × ℕ))
    → lookup k paths ≡ some sock
    → has sock (conn_sockets k.conn paths) ≡ true
unfolding lookup conn_sockets
has-conn_sockets k sock [] e = cc
has-conn_sockets k sock ((j, s) ∷ paths) e = elim (Bool-cases (same_path j k)) [
  | inl hit ↦
      let e' : ◌≡◌ {A = Option ℕ} (some s) (some sock) = rw hit at e in
      let q : s ≡ sock = cc in
      let mine : (j.conn == k.conn) ≡ true =
        (==_iff j.conn k.conn).1 (ap (λ (x : PathKey). x.conn) ((same_path_iff j k).0 hit)) in
      rw mine (
        ap (λ x. has sock (insert_sorted x (conn_sockets k.conn paths))) q
        ∙ has-insert_sorted_self sock (conn_sockets k.conn paths))
  | inr miss ↦
      let rest = has-conn_sockets k sock paths (rw miss at e) in
      elim (Bool-cases (j.conn == k.conn)) [
        | inl mine ↦ rw mine (has-insert_sorted_other sock s (conn_sockets k.conn paths) rest)
        | inr other ↦ rw other rest
      ]
]

-- What a close of a socket leaves.
record Closed (st st' : ShardState) (P : PathKey × ℕ → Type 0) : Type 0 where
  same_primary : st'.primary_udp ≡ st.primary_udp
  gone : (s : ℕ) → lookup s st.udp ≡ none → lookup s st'.udp ≡ none
  kept : All P st.paths → All P st'.paths

close_udp_socket-Closed :
    (P : PathKey × ℕ → Type 0) (st : ShardState) (sock : ℕ) → Closed st (close_udp_socket st sock) P
unfolding close_udp_socket
close_udp_socket-Closed P st sock = elim (Bool-cases (sock == st.primary_udp)) [
  | inl primary ↦ rw primary (record { same_primary = refl; gone = λ s e. e; kept = λ all. all })
  | inr other ↦ rw other (found (lookup sock st.udp))
]
  where
    found : (o : Option UdpEntry) → Closed st (close_found st sock o) P
    found none = record { same_primary = refl; gone = λ s e. e; kept = λ all. all }
    found (some x) = record {
      same_primary = refl;
      gone = λ s e. elim (Bool-cases (sock == s)) [
        | inl hit ↦
            ap (λ y. lookup y (erase sock st.udp)) (sym ((==_iff sock s).0 hit))
            ∙ lookup-erase_self sock st.udp
        | inr miss ↦
            lookup-erase_ne sock s st.udp (λ q. contrary (sym ((==_iff sock s).1 q) ∙ miss)) ∙ e
      ];
      kept = λ all. All-retain P _ st.paths all;
    }
      where
        contrary : true ≡ false → ⊥
        contrary e = cc

close_udp_socket_gone :
    (st : ShardState) (sock : ℕ)
    → sock ≢ st.primary_udp
    → lookup sock (close_udp_socket st sock).udp ≡ none
unfolding close_udp_socket
close_udp_socket_gone st sock ne = elim (Bool-cases (sock == st.primary_udp)) [
  | inl primary ↦ absurd (ne ((==_iff sock st.primary_udp).0 primary))
  | inr other ↦ rw other (found (lookup sock st.udp) refl)
]
  where
    found :
        (o : Option UdpEntry)
        → lookup sock st.udp ≡ o
        → lookup sock (close_found st sock o).udp ≡ none
    found none q = q
    found (some x) q = lookup-erase_self sock st.udp

close_all-Closed :
    (P : PathKey × ℕ → Type 0) (st : ShardState) (socks : List ℕ) → Closed st (close_all st socks) P
unfolding close_all
close_all-Closed P st [] = record { same_primary = refl; gone = λ s e. e; kept = λ all. all }
close_all-Closed P st (sock ∷ socks) =
    let one = close_udp_socket-Closed P st sock in
    let rest = close_all-Closed P (close_udp_socket st sock) socks in
    record {
      same_primary = rest.same_primary ∙ one.same_primary;
      gone = λ s e. rest.gone s (one.gone s e);
      kept = λ all. rest.kept (one.kept all);
    }

close_all_gone :
    (st : ShardState) (socks : List ℕ) (s : ℕ)
    → has s socks ≡ true
    → s ≢ st.primary_udp
    → lookup s (close_all st socks).udp ≡ none
unfolding close_all has
close_all_gone st [] s e ne = cc
close_all_gone st (sock ∷ socks) s e ne =
    let none_left : PathKey × ℕ → Type 0 = λ x. Unit {0} in
    let one = close_udp_socket-Closed none_left st sock in
    let rest = close_all-Closed none_left (close_udp_socket st sock) socks in
    elim (Bool-cases (sock == s)) [
      | inl hit ↦
          let q : sock ≡ s = (==_iff sock s).0 hit in
          rest.gone s (
            ap (λ x. lookup x (close_udp_socket st sock).udp) (sym q)
            ∙ close_udp_socket_gone st sock (λ p. ne (sym q ∙ p)))
      | inr miss ↦
          close_all_gone (close_udp_socket st sock) socks s (rw miss at e)
            (λ p. ne (p ∙ one.same_primary))
    ]

-- When a connection closes, no path of it stays mapped. Every socket that one of its paths was mapped to, unless that
-- is the primary one, leaves the table, and if it was in the table the driver is asked once more to close it: no
-- socket of the connection leaves without a request, and none is asked for twice.
pub close_conn_sockets_lem :
    (st : ShardState) (conn path sock : ℕ)
    → path_socket st conn path ≡ some sock
    → sock ≢ st.primary_udp
    → (lookup sock (close_conn_sockets st conn).udp ≡ none)
      × (requests_of sock (close_conn_sockets st conn).requests
          ≡ requests_of sock st.requests + open_count (lookup sock st.udp))
      × All (λ e. (e.0.conn == conn) ≡ false) (close_conn_sockets st conn).paths
unfolding close_conn_sockets
close_conn_sockets_lem st conn path sock mapped ne =
    let keep : PathKey × ℕ → Bool = λ e. not (e.0.conn == conn) in
    let st1 : ShardState = record st { paths = retain keep st.paths } in
    let socks = conn_sockets conn st.paths in
    let others : PathKey × ℕ → Type 0 = λ e. (e.0.conn == conn) ≡ false in
    let gone =
      close_all_gone st1 socks sock
        (has-conn_sockets (record { conn = conn; path = path }) sock st.paths mapped) ne in
    (
      gone,
      omega (arith, balance-close_all st1 socks sock, ap open_count gone),
      (close_all-Closed others st1 socks).kept
          (not_all conn (retain keep st.paths) (retain_kept keep st.paths)),
    )
  where
    not_all :
        (conn : ℕ) (paths : List (PathKey × ℕ))
        → All (λ e. not (e.0.conn == conn) ≡ true) paths
        → All (λ e. (e.0.conn == conn) ≡ false) paths
    not_all conn [] all = tt
    not_all conn (e ∷ paths) (p, all) = (not_true (e.0.conn == conn) p, not_all conn paths all)
      where
        not_true : (b : Bool) → not b ≡ true → b ≡ false
        not_true true e = cc
        not_true false e = refl
