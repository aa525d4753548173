-- ===== src/Runtime/Routing/Invariant.antt =====
-- Each call of crates/mq-runtime/src/shard/routing.rs keeps the sockets of the paths live.
use mqproxy.Prelude.{
  ℕ, List, [], ◌∷◌, Bool, true, false, not, Option, none, some, ◌==◌, ◌≡◌, ◌≢◌, ==_iff, arith, ap,
  refl, sym, subst, ◌∙◌, All, Bool-cases, inl, inr,
}
use mqproxy.Prelude.Maps.{
  nat_key, lookup, put, erase, lookup-put_ne, lookup-erase_ne, All-put, All-erase,
}
use mqproxy.Transport.RingBuf.{RingBuf}
use mqproxy.Runtime.TxRing
use mqproxy.Runtime.TxRing.{SocketAddr, Pushed, done, send_buf_full}
use mqproxy.Runtime.Routing.{
  PathKey, path_key, UdpOwner, transport, app, UdpEntry, ShardState, is_transport,
  transport_udp_live, app_ring, with_ring, send_on, udp_send, map_path, map_answer, add_path,
  retain, close_found, close_udp_socket, close_mapped, close_path_socket, conn_sockets, close_all,
  close_conn_sockets,
}

abbrev pub IsLive : List (ℕ × UdpEntry) → ℕ → Type 0
IsLive udp sock = is_transport (lookup sock udp) ≡ true

-- The primary socket is live, and so is each that a path is mapped to; all are the transport's.
pub record IsRouted (st : ShardState) : Type 0 where
  pub primary : IsLive st.udp st.primary_udp
  pub mapped : All (λ e. IsLive st.udp e.1) st.paths

pub All-retain :
    (P : PathKey × ℕ → Type 0) (keep : PathKey × ℕ → Bool) (paths : List (PathKey × ℕ))
    → All P paths
    → All P (retain keep paths)
unfolding retain
All-retain P keep [] all = tt
All-retain P keep (e ∷ paths) (p, all) = elim (Bool-cases (keep e)) [
  | inl stays ↦ rw stays (p, All-retain P keep paths all)
  | inr goes ↦ rw goes (All-retain P keep paths all)
]

pub retain_kept :
    (keep : PathKey × ℕ → Bool) (paths : List (PathKey × ℕ))
    → All (λ e. keep e ≡ true) (retain keep paths)
unfolding retain
retain_kept keep [] = tt
retain_kept keep (e ∷ paths) = elim (Bool-cases (keep e)) [
  | inl stays ↦ rw stays (stays, retain_kept keep paths)
  | inr goes ↦ rw goes (retain_kept keep paths)
]

-- A socket that is not mapped any more can go.
All-live_erase :
    (udp : List (ℕ × UdpEntry)) (sock : ℕ) (paths : List (PathKey × ℕ))
    → All (λ e. IsLive udp e.1) paths
    → All (λ e. not (e.1 == sock) ≡ true) paths
    → All (λ e. IsLive (erase sock udp) e.1) paths
All-live_erase udp sock [] live kept = tt
All-live_erase udp sock (e ∷ paths) (l, live) (k, kept) =
    let ne : sock ≢ e.1 = λ q. not_same k ((==_iff e.1 sock).1 (sym q)) in
    (ap is_transport (lookup-erase_ne sock e.1 udp ne) ∙ l, All-live_erase udp sock paths live kept)
  where
    not_same : not (e.1 == sock) ≡ true → (e.1 == sock) ≡ true → ⊥
    not_same k q = ground (arith, k, q)

-- A new socket, or a new ring of an app's socket, keeps the live ones.
live_put :
    (udp : List (ℕ × UdpEntry)) (sock : ℕ) (entry : UdpEntry) (s : ℕ)
    → is_transport (lookup sock udp) ≡ false
    → IsLive udp s
    → IsLive (put sock entry udp) s
live_put udp sock entry s dead l =
    let ne : sock ≢ s = λ q. contrary (sym (ap (λ x. is_transport (lookup x udp)) q ∙ l) ∙ dead) in
    ap is_transport (lookup-put_ne sock entry s udp ne) ∙ l
  where
    contrary : true ≡ false → ⊥
    contrary e = cc

All-live_put :
    (udp : List (ℕ × UdpEntry)) (sock : ℕ) (entry : UdpEntry) (paths : List (PathKey × ℕ))
    → is_transport (lookup sock udp) ≡ false
    → All (λ e. IsLive udp e.1) paths
    → All (λ e. IsLive (put sock entry udp) e.1) paths
All-live_put udp sock entry [] dead live = tt
All-live_put udp sock entry (e ∷ paths) dead (l, live) =
    (live_put udp sock entry e.1 dead l, All-live_put udp sock entry paths dead live)

pub put-IsRouted :
    (st : ShardState) (sock : ℕ) (entry : UdpEntry)
    → is_transport (lookup sock st.udp) ≡ false
    → IsRouted st
    → IsRouted (record st { udp = put sock entry st.udp })
put-IsRouted st sock entry dead v = record {
  primary = live_put st.udp sock entry st.primary_udp dead v.primary;
  mapped = All-live_put st.udp sock entry st.paths dead v.mapped;
}

pub close_udp_socket-IsRouted :
    (st : ShardState) (sock : ℕ) → IsRouted st → IsRouted (close_udp_socket st sock)
unfolding close_udp_socket
close_udp_socket-IsRouted st sock v = elim (Bool-cases (sock == st.primary_udp)) [
  | inl primary ↦ rw primary v
  | inr other ↦ rw other (found (lookup sock st.udp) other)
]
  where
    found :
        (o : Option UdpEntry) → (sock == st.primary_udp) ≡ false → IsRouted (close_found st sock o)
    found none other = v
    found (some e) other =
        let keep : PathKey × ℕ → Bool = λ e. not (e.1 == sock) in
        let ne : sock ≢ st.primary_udp =
          λ q. contrary (sym ((==_iff sock st.primary_udp).1 q) ∙ other) in
        record {
          primary = ap is_transport (lookup-erase_ne sock st.primary_udp st.udp ne) ∙ v.primary;
          mapped =
              All-live_erase st.udp sock (retain keep st.paths)
                (All-retain (λ e. IsLive st.udp e.1) keep st.paths v.mapped)
                (retain_kept keep st.paths);
        }
      where
        contrary : true ≡ false → ⊥
        contrary e = cc

pub close_path_socket-IsRouted :
    (st : ShardState) (conn path : ℕ) → IsRouted st → IsRouted (close_path_socket st conn path)
unfolding close_path_socket
close_path_socket-IsRouted st conn path v =
    by_lookup (lookup (record { conn = conn; path = path }) st.paths)
  where
    by_lookup : (o : Option ℕ) → IsRouted (close_mapped st (record { conn = conn; path = path }) o)
    by_lookup none = v
    by_lookup (some sock) =
        let key : PathKey = record { conn = conn; path = path } in
        close_udp_socket-IsRouted (record st { paths = erase key st.paths }) sock
          (record {
            primary = v.primary;
            mapped = All-erase (λ e. IsLive st.udp e.1) key st.paths v.mapped;
          })

close_all-IsRouted :
    (st : ShardState) (socks : List ℕ) → IsRouted st → IsRouted (close_all st socks)
unfolding close_all
close_all-IsRouted st [] v = v
close_all-IsRouted st (sock ∷ socks) v =
    close_all-IsRouted (close_udp_socket st sock) socks (close_udp_socket-IsRouted st sock v)

pub close_conn_sockets-IsRouted :
    (st : ShardState) (conn : ℕ) → IsRouted st → IsRouted (close_conn_sockets st conn)
unfolding close_conn_sockets
close_conn_sockets-IsRouted st conn v =
    let keep : PathKey × ℕ → Bool = λ e. not (e.0.conn == conn) in
    close_all-IsRouted (record st { paths = retain keep st.paths }) (conn_sockets conn st.paths)
      (record {
        primary = v.primary;
        mapped = All-retain (λ e. IsLive st.udp e.1) keep st.paths v.mapped;
      })

pub add_path-IsRouted :
    (st : ShardState) (conn sock : ℕ) (answer : Option ℕ)
    → IsRouted st
    → IsRouted (add_path st conn sock answer)
unfolding add_path map_path transport_udp_live
add_path-IsRouted st conn sock answer v = elim (Bool-cases (is_transport (lookup sock st.udp))) [
  | inr dead ↦ rw dead v
  | inl live ↦ rw live (by_answer answer live)
]
  where
    by_answer : (o : Option ℕ) → IsLive st.udp sock → IsRouted (map_answer st conn sock o)
    by_answer none live = v
    by_answer (some path) live = record {
      primary = v.primary;
      mapped =
          All-put (λ e. IsLive st.udp e.1) (record { conn = conn; path = path }) sock st.paths
            v.mapped live;
    }

pub udp_send-IsRouted :
    (st : ShardState) (sock : ℕ) (dst : SocketAddr) (bytes : List ℕ) (st' : ShardState) (p : Pushed)
    → udp_send st sock dst bytes ≡ some (st', p)
    → IsRouted st
    → IsRouted st'
unfolding udp_send
udp_send-IsRouted st sock dst bytes st' p e v = by_entry (lookup sock st.udp) refl bytes e
  where
    pushed :
        (local : SocketAddr) (o : Option (RingBuf × Pushed))
        → is_transport (lookup sock st.udp) ≡ false
        → with_ring st sock local o ≡ some (st', p)
        → IsRouted st'
    pushed local none dead q = cc
    pushed local (some (ring, p')) dead q =
        let entry : UdpEntry = record { local = local; owner = app ring } in
        let same : record st { udp = put sock entry st.udp } ≡ st' = cc in
        subst IsRouted same (put-IsRouted st sock entry dead v)

    by_owner :
        (local : SocketAddr) (owner : UdpOwner)
        → is_transport (lookup sock st.udp)
          ≡ is_transport (some (record { local = local; owner = owner }))
        → (bytes : List ℕ)
        → send_on st sock dst bytes (app_ring (some (record { local = local; owner = owner })))
          ≡ some (st', p)
        → IsRouted st'
    by_owner local transport found bytes q = (let same : st ≡ st' = cc in subst IsRouted same v)
    by_owner local (app ring) found [] q = (let same : st ≡ st' = cc in subst IsRouted same v)
    by_owner local (app ring) found (b ∷ bytes) q =
        pushed local (TxRing.push ring dst (b ∷ bytes)) found q

    by_entry :
        (o : Option UdpEntry)
        → lookup sock st.udp ≡ o
        → (bytes : List ℕ) → send_on st sock dst bytes (app_ring o) ≡ some (st', p)
        → IsRouted st'
    by_entry none found bytes q = (let same : st ≡ st' = cc in subst IsRouted same v)
    by_entry (some entry) found bytes q =
        by_owner entry.local entry.owner (ap is_transport found) bytes q
