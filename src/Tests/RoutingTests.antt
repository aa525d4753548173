-- ===== src/Tests/RoutingTests.antt =====
-- Runs of the socket routing of crates/mq-runtime/src/shard/routing.rs.
use mqproxy.Prelude.{ℕ, ◌+◌, [], ◌∷◌, true, false, some, none, ◌==◌, ◌≡◌, ◌≢◌, refl, arith, All}
use mqproxy.Prelude.Maps.{nat_key, lookup}
use mqproxy.Runtime.TxRing.{SocketAddr, v4}
use mqproxy.Runtime.Routing
use mqproxy.Runtime.Routing.{
  transport, UdpEntry, ShardState, transport_udp_live, socket_for, add_path, path_socket,
  close_conn_sockets,
}
use mqproxy.Runtime.Routing.Laws.{Reach, start, next, opens, adds_path, socket_for_live}
use mqproxy.Runtime.Routing.CloseRequests.{requests_of, open_count}
use mqproxy.Runtime.Routing.Closing.{close_conn_sockets_lem}

abbrev any_local : SocketAddr
any_local = v4 (0 ∷ 0 ∷ 0 ∷ 0 ∷ []) 0

abbrev quic_entry : UdpEntry
quic_entry = record { local = any_local; owner = transport }

abbrev two_sockets : ShardState
two_sockets = record (Routing.new 1 any_local) { udp = (1, quic_entry) ∷ (2, quic_entry) ∷ [] }

-- The path 4 of the connection 3 is mapped to the socket 2.
abbrev mapped : ShardState
mapped = record two_sockets { paths = (record { conn = 3; path = 4 }, 2) ∷ [] }

mapped_run : add_path two_sockets 3 2 (some 4) ≡ mapped
unfolding add_path
mapped_run = refl

mapped-Reach : Reach 1 any_local mapped
unfolding lookup add_path
mapped-Reach = next (next start (opens 2 quic_entry refl)) (adds_path 3 2 (some 4))

socket_for_live_example :
    transport_udp_live mapped (socket_for mapped (record { conn = some 3; path = 4 })) ≡ true
socket_for_live_example =
    socket_for_live 1 any_local mapped (record { conn = some 3; path = 4 }) mapped-Reach

two_is_found : path_socket mapped 3 4 ≡ some 2
unfolding lookup Routing.same_path
two_is_found = refl

two_is_no_primary : ◌≢◌ {A = ℕ} 2 1
two_is_no_primary e = absurd (omega (arith, e))

close_conn_sockets_lem_example :
    (lookup 2 (close_conn_sockets mapped 3).udp ≡ none)
    × (requests_of 2 (close_conn_sockets mapped 3).requests
        ≡ requests_of 2 mapped.requests + open_count (lookup 2 mapped.udp))
    × All (λ e. (e.0.conn == 3) ≡ false) (close_conn_sockets mapped 3).paths
close_conn_sockets_lem_example = close_conn_sockets_lem mapped 3 4 2 two_is_found two_is_no_primary

-- The driver is asked once to close it.
close_run : (close_conn_sockets mapped 3).requests ≡ Routing.close_socket 2 ∷ []
unfolding close_conn_sockets lookup Routing.same_path
close_run = refl
