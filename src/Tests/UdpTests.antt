-- ===== src/Tests/UdpTests.antt =====
-- Runs of the UDP buffers of crates/mq-proxy/src/udp.
use mqproxy.Prelude.{
  ℕ, ◌≡◌, refl, List, [], ◌∷◌, ◌++◌, some, none, ok, Bool-cases, inl, inr, arith, length, drop, map,
  take, ltb, if◌then◌else◌, not, ◌==◌,
}
use mqproxy.Wire.UdpMsg.{UdpMsgHdr, split, chunks, number_from, frags_needed}
use mqproxy.Wire.Frames.Codes.{AddrType}
use mqproxy.Udp.Defrag
use mqproxy.Udp.Defrag.Lists
use mqproxy.Udp.Defrag.{Slot, Feed, pending, complete}
use mqproxy.Udp.Defrag.Invariant.{IsDefrag, Fed, feed-Fed}
use mqproxy.Udp.PreOpen
use mqproxy.Udp.PreOpen.{preopen_bytes, retain, total}
use mqproxy.Udp.PreOpen.Laws.{IsBounded, push-IsBounded, push_keeps_newest, take_lem, in_time}
use mqproxy.Udp.Socks5Udp
use mqproxy.Udp.Socks5Udp.{Dst}
use mqproxy.Udp.Socks5Udp.Laws.{parse-build}

abbrev last_frag : UdpMsgHdr
last_frag = record { session_id = 7; packet_id = 9; flags = 0; frag_id = 1; frag_count = 2 }

-- A packet whose first fragment has arrived.
abbrev half : Defrag.Defrag
half = record {
  slots =
      record {
        packet_id = 9;
        frags = some (1 ∷ 2 ∷ []) ∷ none ∷ [];
        received = 1;
        total_len = 2;
        seq = 1;
      }
      ∷ [];
  seq = 1;
}

half-IsDefrag : IsDefrag half
unfolding Lists.count_some Lists.total
half-IsDefrag = record {
  few = omega arith;
  slots =
      (record { counted = refl; waiting = omega arith; sized = refl; capped = omega arith }, tt);
}

second_frag :
    Defrag.feed half last_frag (3 ∷ [])
    ≡ some (record { slots = []; seq = 2 }, complete (1 ∷ 2 ∷ 3 ∷ []))
unfolding Defrag.feed Defrag.locate Defrag.reuse Defrag.store Defrag.swap_remove Defrag.assembled
    Defrag.is_some Defrag.position
second_frag = refl

feed-Fed_example : Fed (3 ∷ []) (Defrag.feed half last_frag (3 ∷ []))
feed-Fed_example = feed-Fed half last_frag (3 ∷ []) half-IsDefrag

-- Two datagrams of two sessions.
abbrev held : PreOpen.PreOpen
held = record {
  q =
      record { sid = 1; at = 0; datagram = 5 ∷ 6 ∷ [] }
      ∷ record { sid = 2; at = 200_000; datagram = 7 ∷ [] }
      ∷ [];
  bytes = 3;
}

held-IsBounded : IsBounded held
unfolding total
held-IsBounded = record { exact = refl; few = omega arith; light = omega arith }

push-IsBounded_example : IsBounded (PreOpen.push held 300_000 1 (8 ∷ [])).0
push-IsBounded_example = push-IsBounded held 300_000 1 (8 ∷ []) held-IsBounded

push_run : PreOpen.push held 300_000 1 (8 ∷ []) ≡ (
  record {
    q =
        record { sid = 2; at = 200_000; datagram = 7 ∷ [] }
        ∷ record { sid = 1; at = 300_000; datagram = 8 ∷ [] }
        ∷ [];
    bytes = 2;
  },
  0,
)
unfolding PreOpen.push PreOpen.sweep PreOpen.evict
push_run = refl

push_keeps_newest_example :
    (k : ℕ) × (let (r, evictions) = PreOpen.push held 300_000 1 (8 ∷ []) in
      if ltb preopen_bytes (length {A = ℕ} (8 ∷ []))
      then (r.q ≡ drop k held.q) × (evictions ≡ 1)
      else (r.q ≡ drop k held.q ++ (record { sid = 1; at = 300_000; datagram = 8 ∷ [] } ∷ []))
        × Unit {0})
push_keeps_newest_example = push_keeps_newest held 300_000 1 (8 ∷ [])

take_lem_example :
    let (r, taken) = PreOpen.take held 210_000 2 in
    (r.q ≡ retain (λ e. not (e.sid == 2)) held.q)
    × (taken ≡ map (λ e. e.datagram) (retain (in_time 210_000 2) held.q))
    × (r.bytes ≡ total r.q)
take_lem_example = take_lem held 210_000 2 held-IsBounded.exact

abbrev dst : Dst
dst = record { atype = AddrType.ipv4; addr = 192 ∷ 0 ∷ 2 ∷ 1 ∷ []; port = 53 }

parse-build_example :
    (take 2 (Socks5Udp.build (9 ∷ 9 ∷ []) dst).0 ≡ 9 ∷ 9 ∷ [])
    × (Socks5Udp.parse (drop 2 (Socks5Udp.build (9 ∷ 9 ∷ []) dst).0 ++ (1 ∷ 2 ∷ []))
        ≡ some (dst, (Socks5Udp.build (9 ∷ 9 ∷ []) dst).1))
parse-build_example = parse-build (9 ∷ 9 ∷ []) dst (1 ∷ 2 ∷ []) (omega arith) refl

-- A packet of three bytes under the id 9 in fragments of two, and no other packets.
abbrev sent_packet : ℕ → List ℕ
sent_packet p = if p == 9 then 1 ∷ 2 ∷ 3 ∷ [] else []

abbrev fragments : ℕ → List (UdpMsgHdr × List ℕ)
fragments p =
    if p == 9
    then (
      record { session_id = 7; packet_id = p; flags = 0; frag_id = 0; frag_count = 2 },
      1 ∷ 2 ∷ [],
    )
      ∷ (record { session_id = 7; packet_id = p; flags = 0; frag_id = 1; frag_count = 2 }, 3 ∷ [])
      ∷ []
    else (record { session_id = 7; packet_id = p; flags = 0; frag_id = 0; frag_count = 1 }, []) ∷ []

fragments_made : (p : ℕ) → split 7 p (sent_packet p) 2 ≡ ok (fragments p)
unfolding split chunks number_from frags_needed
fragments_made p = elim (Bool-cases (p == 9)) [ inl it ↦ rw it refl | inr other ↦ rw other refl ]
