-- ===== src/Runtime/Routing.antt =====
-- The UDP sockets of a shard, and which of them a path sends on: crates/mq-runtime/src/shard/routing.rs, with
-- `add_path` of app.rs. Sockets, connections and paths are numbers; the hash maps are lists of entries. The
-- transport's answer to a new path is a parameter.
pub mod CloseRequests
pub mod Closing
pub mod Invariant
pub mod Laws
use mqproxy.Prelude.{
  ℕ, List, [], ◌∷◌, ◌++◌, Bool, true, false, not, ◌&&◌, Option, none, some, ◌==◌, ltb,
  if◌then◌else◌, ◌≡◌, ◌↔◌, ==_iff, arith,
}
use mqproxy.Prelude.Maps.{Key, nat_key, lookup, put, erase}
use mqproxy.Prelude.Sorted.{insert_sorted}
use mqproxy.Transport.RingBuf.{RingBuf}
use mqproxy.Transport.TxQueues.{TxKey}
use mqproxy.Runtime.TxRing
use mqproxy.Runtime.TxRing.{SocketAddr, Pushed, done, send_buf_full}

-- A connection and a path.
pub record PathKey : Type 0 where
  pub conn : ℕ
  pub path : ℕ

unfoldable pub same_path : PathKey → PathKey → Bool
same_path j k = (j.conn == k.conn) && (j.path == k.path)

pub same_path_iff : (j k : PathKey) → (same_path j k ≡ true) ↔ (j ≡ k)
unfolding same_path
same_path_iff j k = ground arith

instance abbrev pub path_key : Key PathKey
path_key = record { same = same_path; same_iff = same_path_iff }

pub data UdpOwner : Type 0 where
  transport : UdpOwner
  app : RingBuf → UdpOwner

pub record UdpEntry : Type 0 where
  pub local : SocketAddr
  pub owner : UdpOwner

pub data IoRequest : Type 0 where
  close_socket : ℕ → IoRequest

-- The part of the shard's state that this code reads and changes.
pub record ShardState : Type 0 where
  pub primary_udp : ℕ
  pub udp : List (ℕ × UdpEntry)
  pub paths : List (PathKey × ℕ)
  pub tx_cursor : List (ℕ × TxKey)
  pub requests : List IoRequest

-- The primary socket is the only one.
abbrev pub new : ℕ → SocketAddr → ShardState
new primary local = record {
  primary_udp = primary;
  udp = (primary, record { local = local; owner = transport }) ∷ [];
  paths = [];
  tx_cursor = [];
  requests = [];
}

abbrev pub path_socket : ShardState → ℕ → ℕ → Option ℕ
path_socket st conn path = lookup (record { conn = conn; path = path }) st.paths

abbrev pub is_transport : Option UdpEntry → Bool
is_transport none = false
is_transport (some e) = elim (e.owner) [ transport ↦ true | app ring ↦ false ]

unfoldable pub transport_udp_live : ShardState → ℕ → Bool
unfolding lookup
transport_udp_live st sock = is_transport (lookup sock st.udp)

abbrev pub app_ring : Option UdpEntry → Option (SocketAddr × RingBuf)
app_ring none = none
app_ring (some e) = elim (e.owner) [ transport ↦ none | app ring ↦ some (e.local, ring) ]

abbrev pub with_ring :
    ShardState → ℕ → SocketAddr → Option (RingBuf × Pushed) → Option (ShardState × Pushed)
with_ring st sock local none = none
with_ring st sock local (some (ring, p)) =
    some (record st { udp = put sock (record { local = local; owner = app ring }) st.udp }, p)

abbrev pub send_on :
    ShardState
    → ℕ
    → SocketAddr
    → List ℕ
    → Option (SocketAddr × RingBuf)
    → Option (ShardState × Pushed)
send_on st sock dst bytes none = some (st, send_buf_full)
send_on st sock dst [] (some (local, ring)) = some (st, done)
send_on st sock dst (b ∷ bytes) (some (local, ring)) =
    with_ring st sock local (TxRing.push ring dst (b ∷ bytes))

-- `none` is a panic of the ring.
unfoldable pub udp_send : ShardState → ℕ → SocketAddr → List ℕ → Option (ShardState × Pushed)
unfolding lookup
udp_send st sock dst bytes = send_on st sock dst bytes (app_ring (lookup sock st.udp))

unfoldable pub map_path : ShardState → ℕ → ℕ → ℕ → ShardState
unfolding put
map_path st conn path sock = record st {
  paths = put (record { conn = conn; path = path }) sock st.paths;
}

abbrev pub map_answer : ShardState → ℕ → ℕ → Option ℕ → ShardState
map_answer st conn sock none = st
map_answer st conn sock (some path) = map_path st conn path sock

-- `answer` is the transport's path, or none on its error.
unfoldable pub add_path : ShardState → ℕ → ℕ → Option ℕ → ShardState
unfolding map_path transport_udp_live
add_path st conn sock answer =
    if not (transport_udp_live st sock) then st else map_answer st conn sock answer

abbrev pub socket_or : ℕ → Option ℕ → ℕ
socket_or primary none = primary
socket_or primary (some sock) = sock

abbrev pub conn_socket : ShardState → Option ℕ → ℕ → Option ℕ
conn_socket st none path = none
conn_socket st (some conn) path = path_socket st conn path

unfoldable pub socket_for : ShardState → TxKey → ℕ
unfolding lookup
socket_for st key = socket_or st.primary_udp (conn_socket st key.conn key.path)

-- `retain` on the entries.
unfoldable pub retain : (PathKey × ℕ → Bool) → List (PathKey × ℕ) → List (PathKey × ℕ)
retain keep [] = []
retain keep (e ∷ paths) = let rest = retain keep paths in if keep e then e ∷ rest else rest

abbrev pub close_found : ShardState → ℕ → Option UdpEntry → ShardState
close_found st sock none = st
close_found st sock (some e) = record st {
  udp = erase sock st.udp;
  paths = retain (λ e. not (e.1 == sock)) st.paths;
  tx_cursor = erase sock st.tx_cursor;
  requests = st.requests ++ (close_socket sock ∷ []);
}

unfoldable pub close_udp_socket : ShardState → ℕ → ShardState
unfolding lookup retain erase
close_udp_socket st sock =
    if sock == st.primary_udp then st else close_found st sock (lookup sock st.udp)

abbrev pub close_mapped : ShardState → PathKey → Option ℕ → ShardState
close_mapped st key none = st
close_mapped st key (some sock) = close_udp_socket (record st { paths = erase key st.paths }) sock

unfoldable pub close_path_socket : ShardState → ℕ → ℕ → ShardState
unfolding close_udp_socket
close_path_socket st conn path =
    let key : PathKey = record { conn = conn; path = path } in
    close_mapped st key (lookup key st.paths)

-- The sockets that a connection's paths are mapped to.
unfoldable pub conn_sockets : ℕ → List (PathKey × ℕ) → List ℕ
unfolding insert_sorted
conn_sockets conn [] = []
conn_sockets conn ((k, sock) ∷ paths) =
    let rest = conn_sockets conn paths in if k.conn == conn then insert_sorted sock rest else rest

unfoldable pub close_all : ShardState → List ℕ → ShardState
unfolding close_udp_socket
close_all st [] = st
close_all st (sock ∷ socks) = close_all (close_udp_socket st sock) socks

unfoldable pub close_conn_sockets : ShardState → ℕ → ShardState
unfolding conn_sockets close_all retain
close_conn_sockets st conn =
    let socks = conn_sockets conn st.paths in
    close_all (record st { paths = retain (λ e. not (e.0.conn == conn)) st.paths }) socks
