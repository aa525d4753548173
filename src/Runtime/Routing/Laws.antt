-- ===== src/Runtime/Routing/Laws.antt =====
-- However sockets and paths come and go in crates/mq-runtime/src/shard/routing.rs, a path has a live socket.
use mqproxy.Prelude.{ℕ, List, true, Option, none, some, ◌≡◌, ==_iff, ap, refl}
use mqproxy.Prelude.Maps.{nat_key, lookup, put, All-lookup}
use mqproxy.Transport.TxQueues.{TxKey}
use mqproxy.Runtime.TxRing.{SocketAddr, Pushed}
use mqproxy.Runtime.Routing.{
  PathKey, path_key, UdpEntry, ShardState, new, is_transport, transport_udp_live, udp_send,
  add_path, socket_or, conn_socket, socket_for, close_udp_socket, close_path_socket,
  close_conn_sockets,
}
use mqproxy.Runtime.Routing.Invariant.{
  IsLive, IsRouted, put-IsRouted, close_udp_socket-IsRouted, close_path_socket-IsRouted,
  close_conn_sockets-IsRouted, add_path-IsRouted, udp_send-IsRouted,
}

-- One call. A socket is opened under an id that is not in use.
pub data Step : ShardState → ShardState → Type 0 where
  opens :
      {st : ShardState} (sock : ℕ) (entry : UdpEntry)
      → lookup sock st.udp ≡ none
      → Step st (record st { udp = put sock entry st.udp })
  sends :
      {st st' : ShardState} (sock : ℕ) (dst : SocketAddr) (bytes : List ℕ) (p : Pushed)
      → udp_send st sock dst bytes ≡ some (st', p)
      → Step st st'
  adds_path :
      {st : ShardState} (conn sock : ℕ) (answer : Option ℕ) → Step st (add_path st conn sock answer)
  closes : {st : ShardState} (sock : ℕ) → Step st (close_udp_socket st sock)
  closes_path : {st : ShardState} (conn path : ℕ) → Step st (close_path_socket st conn path)
  closes_conn : {st : ShardState} (conn : ℕ) → Step st (close_conn_sockets st conn)

pub data Reach (primary : ℕ) (local : SocketAddr) : ShardState → Type 0 where
  start : Reach primary local (new primary local)
  next : {st st' : ShardState} → Reach primary local st → Step st st' → Reach primary local st'

Step-IsRouted : {st st' : ShardState} → Step st st' → IsRouted st → IsRouted st'
Step-IsRouted {st} {st'} (opens sock entry fresh) v =
    put-IsRouted st sock entry (ap is_transport fresh) v
Step-IsRouted {st} {st'} (sends sock dst bytes p e) v =
    udp_send-IsRouted st sock dst bytes st' p e v
Step-IsRouted {st} {st'} (adds_path conn sock answer) v = add_path-IsRouted st conn sock answer v
Step-IsRouted {st} {st'} (closes sock) v = close_udp_socket-IsRouted st sock v
Step-IsRouted {st} {st'} (closes_path conn path) v = close_path_socket-IsRouted st conn path v
Step-IsRouted {st} {st'} (closes_conn conn) v = close_conn_sockets-IsRouted st conn v

Reach-IsRouted :
    (primary : ℕ) (local : SocketAddr) (st : ShardState) → Reach primary local st → IsRouted st
unfolding lookup
Reach-IsRouted primary local _ start = record {
  primary = rw ((==_iff primary primary).1 refl) refl;
  mapped = tt;
}
Reach-IsRouted primary local _ (next r s) = Step-IsRouted s (Reach-IsRouted primary local _ r)

-- However sockets are opened and closed, paths mapped and removed, connections closed and app datagrams queued,
-- the socket that a queue's transmits go to is live, and it is one of the transport's.
pub socket_for_live :
    (primary : ℕ) (local : SocketAddr) (st : ShardState) (key : TxKey)
    → Reach primary local st
    → transport_udp_live st (socket_for st key) ≡ true
unfolding transport_udp_live socket_for
socket_for_live primary local st key r =
    let v = Reach-IsRouted primary local st r in by_conn key.conn v
  where
    by_socket :
        (o : Option ℕ) (k : PathKey)
        → lookup k st.paths ≡ o
        → IsRouted st
        → IsLive st.udp (socket_or st.primary_udp o)
    by_socket none k q v = v.primary
    by_socket (some sock) k q v = All-lookup (λ e. IsLive st.udp e.1) k sock st.paths v.mapped q

    by_conn :
        (o : Option ℕ)
        → IsRouted st
        → IsLive st.udp (socket_or st.primary_udp (conn_socket st o key.path))
    by_conn none v = v.primary
    by_conn (some conn) v =
        let k : PathKey = record { conn = conn; path = key.path } in
        by_socket (lookup k st.paths) k refl v
