-- ===== src/Tests/PathTests.antt =====
-- Runs of the client's paths in crates/mq-proxy/src/client/paths.rs.
use mqproxy.Prelude.{List, [], ◌∷◌, some, false}
use mqproxy.Ingress.Request.{IpAddr, v4}
use mqproxy.Client.Paths
use mqproxy.Client.Paths.{Cx, Paths, owns, max_candidates}
use mqproxy.Client.Paths.Sockets.{Fate, on_udp_socket-Fate}

abbrev extra : List IpAddr
extra = v4 (10 ∷ 0 ∷ 0 ∷ 2 ∷ []) ∷ []

abbrev cx : Cx
cx = record {
  now = 0;
  primary_udp = 1;
  ids = 7;
  answer = λ n. Paths.Added.up 2;
  rnd = λ n. n;
  log = [];
}

abbrev fresh : Paths
fresh = Paths.new extra 30_000_000_000 false

-- The extra path's socket is being opened.
abbrev opening : Paths
opening = (Paths.on_mp_ready fresh cx 5).0

on_udp_socket-Fate_example :
    let (p', cx') = Paths.on_udp_socket opening cx (some 5) 7 (some 12) in
    Fate 12 p'.slots cx.log cx'.log
on_udp_socket-Fate_example = on_udp_socket-Fate opening cx (some 5) 7 12
