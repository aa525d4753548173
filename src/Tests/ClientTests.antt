-- ===== src/Tests/ClientTests.antt =====
-- Runs of the client's session table (crates/mq-proxy/src/client/udp_session.rs).
use mqproxy.Prelude.{ℕ, [], ◌∷◌, some, none, ◌≡◌, refl}
use mqproxy.Prelude.Maps.{nat_key, lookup}
use mqproxy.Client.Sessions.{
  Session, Client, new_session, insert_session, attach_stream, udp_conn_gone, stream_session,
}
use mqproxy.Client.Sessions.Reach.{
  Reach, start, next, opens, issues, no_sessions, stream_session_found, udp_conn_gone_lem,
}

abbrev empty_client : Client ℕ ℕ ℕ
empty_client = no_sessions []

-- The session 1 of the association 5, to the target 9.
abbrev one_session : Client ℕ ℕ ℕ
one_session = record empty_client { by_sid = (1, new_session 5 9 []) ∷ [] }

-- It has the stream 4.
abbrev issued : Client ℕ ℕ ℕ
issued = record one_session {
  by_sid = (1, record (new_session 5 9 []) { stream = some 4 }) ∷ [];
  by_stream = (4, 1) ∷ [];
}

one_session-Reach : Reach one_session
unfolding insert_session lookup
one_session-Reach = next (start []) (opens 1 5 9 [] refl)

issued-Reach : Reach issued
unfolding attach_stream lookup
issued-Reach = next one_session-Reach (issues 1 4 (new_session 5 9 []) refl refl refl refl)

four_is_of_one : lookup 4 issued.by_stream ≡ some 1
unfolding lookup
four_is_of_one = refl

stream_session_found_example :
    (s : Session ℕ) × (stream_session issued 4 ≡ some s) × (s.stream ≡ some 4)
stream_session_found_example = stream_session_found issued 4 1 issued-Reach four_is_of_one

udp_conn_gone_lem_example :
    (lookup 1 (udp_conn_gone issued 7).by_sid ≡ none)
    × (lookup 4 (udp_conn_gone issued 7).by_stream ≡ none)
udp_conn_gone_lem_example = udp_conn_gone_lem issued 7 1 4 issued-Reach
