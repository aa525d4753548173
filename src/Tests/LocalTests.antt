-- ===== src/Tests/LocalTests.antt =====
-- Runs of the parsers of crates/mq-proxy/src/ingress and of the client's queues.
use mqproxy.Prelude.{
  ℕ, ◌≤◌, ◌≡◌, ◌≢◌, refl, List, [], ◌∷◌, Bool, true, false, Option, some, none, arith, leb,
}
use mqproxy.Ingress.Request.{ingress_cap, need, domain}
use mqproxy.Ingress.Socks5
use mqproxy.Ingress.Socks5.Laws.{Consumes, feed-Consumes}
use mqproxy.Ingress.HttpConnect
use mqproxy.Ingress.HttpConnect.Laws.{Answers, feed-Answers}
use mqproxy.Client.Backoff
use mqproxy.Client.Backoff.Laws.{InBand, next_delay-InBand}
use mqproxy.Client.Pending
use mqproxy.Client.Pending.{PendingOpen, IngressKind, max_pending, is_expired}

-- ASCII is UTF-8.
abbrev is_ascii : List ℕ → Bool
is_ascii [] = true
is_ascii (c ∷ cs) = elim (leb 128 c) [ true ↦ false | false ↦ is_ascii cs ]

-- No name is an IP literal.
abbrev no_literal : List ℕ → Option (List ℕ)
no_literal s = none

-- CONNECT to h:443.
abbrev connect_request : List ℕ
connect_request = 5 ∷ 1 ∷ 0 ∷ 3 ∷ 1 ∷ 104 ∷ 1 ∷ 187 ∷ []

feed-Consumes_example :
    Consumes 8 (Socks5.feed is_ascii true connect_request).1
    × (ingress_cap ≤ 8 → (Socks5.feed is_ascii true connect_request).1 ≢ need)
feed-Consumes_example = feed-Consumes is_ascii true connect_request

-- "CONNECT h:80 HTTP/1.1" and a blank line.
abbrev connect_head : List ℕ
connect_head =
    67 ∷ 79 ∷ 78 ∷ 78 ∷ 69 ∷ 67 ∷ 84 ∷ 32 ∷ 104 ∷ 58 ∷ 56 ∷ 48 ∷ 32 ∷ 72 ∷ 84 ∷ 84 ∷ 80 ∷ 47 ∷ 49
    ∷ 46 ∷ 49 ∷ 13 ∷ 10 ∷ 13 ∷ 10 ∷ []

feed-Answers_example :
    Answers is_ascii 25 (HttpConnect.feed is_ascii no_literal no_literal connect_head)
    × (ingress_cap ≤ 25 → HttpConnect.feed is_ascii no_literal no_literal connect_head ≢ need)
feed-Answers_example = feed-Answers is_ascii no_literal no_literal connect_head

-- A client that served for eleven seconds.
abbrev served : Backoff.Backoff
served = record { cap_ms = 30_000; attempts = 5; serving_since = some 1_000_000 }

next_delay-InBand_example : InBand served 12_000_000 77
next_delay-InBand_example = next_delay-InBand served 12_000_000 77 (omega arith)

delay_run : (Backoff.next_delay served 12_000_000 77).1 ≡ 327
unfolding Backoff.next_delay Backoff.backoff_ms Backoff.attempts_at
delay_run = refl

abbrev waiting_at : ℕ → ℕ → PendingOpen
waiting_at tcp at = record {
  tcp = tcp;
  target = record { host = domain (104 ∷ []); port = 80 };
  kind = IngressKind.socks5;
  enqueued_at = at;
}

abbrev queue : Pending.Pending
queue = record { q = waiting_at 1 0 ∷ waiting_at 2 20_000 ∷ []; deadline = 30_000 }

expire_run :
    Pending.expire queue 31_000
    ≡ (record { q = waiting_at 2 20_000 ∷ []; deadline = 30_000 }, waiting_at 1 0 ∷ [])
unfolding Pending.expire Pending.partition
expire_run = refl
