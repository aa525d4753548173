-- ===== src/Tests/SessionTests.antt =====
-- Runs of the UDP send path and of the client's associations and session queues (crates/mq-proxy/src), of the
-- driver's deadlines (crates/mq-runtime/src/driver), and of the origin's counters.
use mqproxy.Prelude.{
  ℕ, ◌+◌, ◌-◌, ◌%◌, ◌^◌, ◌<◌, ◌≡◌, ◌⊎◌, ◌↔◌, refl, List, [], ◌∷◌, ◌++◌, true, false, some, none,
  arith, IsU32, length, ltb, All, if◌then◌else◌, ◌==◌,
}
use mqproxy.Prelude.Maps.{nat_key}
use mqproxy.Prelude.Sets.{has, Distinct}
use mqproxy.Wire.UdpMsg.{split, chunks, number_from, frags_needed}
use mqproxy.Udp.Defrag
use mqproxy.Udp.Defrag.Delivery.{deliver, Delivers}
use mqproxy.Udp.Send
use mqproxy.Udp.Send.{Counters, Cx, Sending, datagram, send_packet, payload, emit_all, send_in}
use mqproxy.Udp.Send.Laws.{Sent, send_packet-Sent}
use mqproxy.Udp.Send.Delivery.{received, send_packet-deliver}
use mqproxy.Client.UdpAssoc
use mqproxy.Client.UdpAssoc.{Assoc, accept_source, insert_dst}
use mqproxy.Client.UdpAssoc.Laws.{accepted, accepted_one, Inserted, insert_dst-Inserted}
use mqproxy.Client.UdpSession.{alloc_sid, enqueue, preauth_sendq_bytes}
use mqproxy.Client.UdpSession.Laws.{IsBounded, alloc_sid_free, enqueue_lem}
use mqproxy.Runtime.Deadlines.{Deadlines, dial, shutdown_cap, expire}
use mqproxy.Runtime.Deadlines.Laws.{Expires, expire-Expires}
use mqproxy.Server.Accounting.{
  ConnAccounting, OriginReq, assigned, ended, Scan, settle_records, sweep_class, e, newest,
  has_aged, idle_max,
}
use mqproxy.Server.Accounting.Laws.{
  IsCounted, unreleased, settle_records-IsCounted, count_assigned, count_ended, IsAged,
  sweep_class_lem,
}

abbrev no_counts : Counters
no_counts = record {
  frags_sent = 0;
  frags_reassembled = 0;
  drops_send_fail = 0;
  drops_oversize = 0;
  defrag_drops = 0;
  preopen_evictions = 0;
  drops_preauth = 0;
  drops_empty = 0;
  drops_unknown_sid = 0;
  sendq_evictions = 0;
  drops_session_limit = 0;
  drops_dst_limit = 0;
}

-- A connection whose datagrams have room for two bytes, and that accepts all.
abbrev idle_cx : Cx
idle_cx = record { datagram_mss = λ n. 11; accepts = λ n. true; log = [] }

abbrev first_of : ℕ → List ℕ
first_of p =
    datagram
      (record { session_id = 7; packet_id = p; flags = 0; frag_id = 0; frag_count = 2 }, 1 ∷ 2 ∷ [])

abbrev second_of : ℕ → List ℕ
second_of p =
    datagram
      (record { session_id = 7; packet_id = p; flags = 0; frag_id = 1; frag_count = 2 }, 3 ∷ [])

abbrev sent_three : ℕ → Sending
sent_three p = record {
  cx = record idle_cx { log = first_of p ∷ second_of p ∷ [] };
  mss = record { value = 11; countdown = 62 };
  counters = record no_counts { frags_sent = 2 };
  out = record { frags_ok = 2; failed = 0 };
}

send_run :
    (p : ℕ) → send_packet idle_cx Send.new 7 p (1 ∷ 2 ∷ 3 ∷ []) no_counts ≡ some (sent_three p)
unfolding send_packet split chunks number_from frags_needed
send_run p = refl

-- It accepts the first datagram and refuses the others.
abbrev busy_cx : Cx
busy_cx = record idle_cx { accepts = λ n. n == 0 }

send_packet-Sent_example :
    (s : Sending) × (send_packet busy_cx Send.new 7 9 (1 ∷ 2 ∷ 3 ∷ []) no_counts ≡ some s)
    × Sent busy_cx no_counts
        (record { value = 11; countdown = 64 })
        (split 7 9 (1 ∷ 2 ∷ 3 ∷ []) 2)
        s
unfolding payload
send_packet-Sent_example = send_packet-Sent busy_cx Send.new 7 9 (1 ∷ 2 ∷ 3 ∷ []) no_counts

-- The second fragment of the packet 9 comes first, and twice.
send_packet-deliver_example :
    Delivers
      (λ p. 1 ∷ 2 ∷ 3 ∷ [])
      (deliver Defrag.new (received 7 (second_of 9 ∷ second_of 9 ∷ first_of 9 ∷ [])))
send_packet-deliver_example =
    send_packet-deliver 7 (omega arith) (λ p. idle_cx) (λ p. Send.new) (λ p. 1 ∷ 2 ∷ 3 ∷ [])
      (λ p. no_counts) sent_three send_run (λ p. omega arith)
      (second_of 9 ∷ second_of 9 ∷ first_of 9 ∷ [])
      (
        (9, omega arith, (1, refl)),
        ((9, omega arith, (1, refl)), ((9, omega arith, (0, refl)), tt)),
      )

-- Addresses are numbers, each its own IP.
abbrev fresh_assoc : Assoc ℕ ℕ ℕ
fresh_assoc = UdpAssoc.new (λ a. a) 5 7

accepted_one_example :
    (accepted (λ a. a) fresh_assoc (8 ∷ 7 ∷ 8 ∷ 7 ∷ []) ≡ [])
    ⊎ ((l : ℕ) × (l ≡ 7) × All (λ x. x ≡ l) (accepted (λ a. a) fresh_assoc (8 ∷ 7 ∷ 8 ∷ 7 ∷ [])))
accepted_one_example = accepted_one (λ a. a) fresh_assoc (8 ∷ 7 ∷ 8 ∷ 7 ∷ []) refl

insert_dst-Inserted_example :
    Inserted fresh_assoc 3 (1 ∷ []) 1_000 (insert_dst fresh_assoc 3 (1 ∷ []) 1_000)
unfolding Distinct
insert_dst-Inserted_example =
    insert_dst-Inserted fresh_assoc 3 (1 ∷ []) 1_000 (record { few = omega arith; once = tt })

alloc_sid_free_example :
    (sid : ℕ) × (alloc_sid 1025 (2 ^ 32 - 1) (λ s. has s ((2 ^ 32 - 1) ∷ 0 ∷ []))
      ≡ some (sid, (sid + 1) % 2 ^ 32))
    × IsU32 sid
    × (has sid ((2 ^ 32 - 1) ∷ 0 ∷ []) ≡ false)
alloc_sid_free_example =
    alloc_sid_free (2 ^ 32 - 1) ((2 ^ 32 - 1) ∷ 0 ∷ []) (omega arith) (omega arith)

alloc_run : alloc_sid 3 (2 ^ 32 - 1) (λ s. has s ((2 ^ 32 - 1) ∷ 0 ∷ [])) ≡ some (1, 2)
unfolding alloc_sid has
alloc_run = refl

enqueue_lem_example :
    (q' : List (List ℕ)) × (n : ℕ) × (enqueue ((1 ∷ []) ∷ []) (2 ∷ []) ≡ some (q', n))
    × (if ltb preauth_sendq_bytes 1
        then (q' ≡ (1 ∷ []) ∷ []) × (n ≡ 1)
        else (gone kept : List (List ℕ)) × ((1 ∷ []) ∷ [] ≡ gone ++ kept)
          × (q' ≡ kept ++ ((2 ∷ []) ∷ []))
          × (n ≡ length gone)
          × IsBounded q')
enqueue_lem_example = enqueue_lem ((1 ∷ []) ∷ []) (2 ∷ [])

abbrev two_armed : Deadlines
two_armed = record { armed = (30, dial 1) ∷ (10, shutdown_cap) ∷ (50, dial 2) ∷ [] }

expire_run : (expire two_armed 30).1 ≡ shutdown_cap ∷ dial 1 ∷ []
unfolding expire
expire_run = refl

expire-Expires_example :
    Expires two_armed.armed (expire two_armed 30).0.armed 30 (expire two_armed 30).1
expire-Expires_example = expire-Expires two_armed 30

-- One assigned request, one ended, and one that is released.
abbrev three_reqs : List OriginReq
three_reqs = assigned ∷ ended false true 5 ∷ ended true true 6 ∷ []

abbrev three_counted : ConnAccounting
three_counted = record { active = 3; ended_unreleased = 0; completed = false }

settle_records-IsCounted_example :
    (s : Scan) × (settle_records three_counted three_reqs ≡ some s)
    × (s.reqs ≡ unreleased three_reqs)
    × IsCounted s.acct s.reqs
    × (s.acct.completed ≡ false)
unfolding count_assigned count_ended
settle_records-IsCounted_example =
    settle_records-IsCounted three_counted three_reqs (omega arith) refl

sweep_class_lem_example :
    (sweep_class
        (record { active = 1; ended_unreleased = 1; completed = false })
        none
        (newest (ended false true 5 ∷ []))
        10_000_005
        10_000_000
      ≡ e)
    ↔ ((has_aged 10_000_005 idle_max none ≡ false)
        × (count_assigned (ended false true 5 ∷ []) ≡ 0)
        × (0 < count_ended (ended false true 5 ∷ []))
        × All (IsAged 10_000_005 10_000_000) (ended false true 5 ∷ []))
unfolding count_assigned count_ended
sweep_class_lem_example =
    sweep_class_lem (record { active = 1; ended_unreleased = 1; completed = false })
      (ended false true 5 ∷ []) none 10_000_005 10_000_000
      (record { active = refl; waiting = refl })
