-- ===== src/Client/UdpSession/Laws.antt =====
-- Session ids are free, and the queue of a waiting session is bounded (crates/mq-proxy/src/client/udp_session.rs).
use mqproxy.Prelude.{
  ℕ, zero, suc, ◌+◌, ◌-◌, ◌%◌, ◌^◌, ◌≤◌, ◌<◌, ◌≡◌, refl, sym, ap, ◌∙◌, List, [], ◌∷◌, ◌++◌, Bool,
  true, false, ◌||◌, some, ltb, leb, ltb→ge, ◌==◌, if◌then◌else◌, length, arith, Bool-cases, inl,
  inr, IsU32, length-append,
}
use mqproxy.Prelude.Maps.{nat_key}
use mqproxy.Prelude.Sets.{has, remove, has-remove_ne}
use mqproxy.Client.UdpSession.{
  alloc_sid, sum_len, make_room, enqueue, max_sessions_per_conn, preauth_sendq_dgrams,
  preauth_sendq_bytes,
}

length-remove : (k : ℕ) (s : List ℕ) → length (remove k s) ≤ length s
unfolding remove
length-remove k [] = omega arith
length-remove k (j ∷ s) = elim (Bool-cases (j == k)) [
  | inl hit ↦ rw hit (omega (arith, length-remove k s))
  | inr miss ↦ rw miss (omega (arith, length-remove k s))
]

length-remove_lt : (k : ℕ) (s : List ℕ) → has k s ≡ true → length (remove k s) < length s
unfolding remove has
length-remove_lt k [] h = cc
length-remove_lt k (j ∷ s) h = elim (Bool-cases (j == k)) [
  | inl hit ↦ rw hit (omega (arith, length-remove k s))
  | inr miss ↦ rw miss (omega (arith, length-remove_lt k s (rw miss at h)))
]

-- Among more numbers in a row than there are live ones, one is not live.
alloc_sid_found :
    (fuel next : ℕ) (live : ℕ → Bool) (s : List ℕ)
    → IsU32 next
    → length s < fuel
    → fuel ≤ 2 ^ 32
    → ((i : ℕ) → i < fuel → live ((next + i) % 2 ^ 32) ≡ true → has ((next + i) % 2 ^ 32) s ≡ true)
    → (sid : ℕ) × (alloc_sid fuel next live ≡ some (sid, (sid + 1) % 2 ^ 32))
      × IsU32 sid
      × (live sid ≡ false)
unfolding alloc_sid
alloc_sid_found zero next live s u32 h few known = absurd (omega (arith, h))
alloc_sid_found (suc fuel) next live s u32 h few known = elim (Bool-cases (live next)) [
  | inr dead ↦ (next, rw dead refl, u32, dead)
  | inl alive ↦
      let here : (next + 0) % 2 ^ 32 ≡ next = omega (arith, u32) in
      let held : has next s ≡ true =
        sym (ap (λ x. has x s) here) ∙ known 0 (omega arith) (ap live here ∙ alive) in
      let next' = (next + 1) % 2 ^ 32 in
      let (sid, e, small, dead) =
        alloc_sid_found fuel next' live (remove next s) (omega arith)
          (omega (arith, h, length-remove_lt next s held)) (omega (arith, few))
          (λ i in_fuel alive_i.
            let at : (next' + i) % 2 ^ 32 ≡ (next + suc i) % 2 ^ 32 = omega arith in
            let other : (next == (next' + i) % 2 ^ 32) ≡ false =
              ground (arith, u32, in_fuel, few) in
            has-remove_ne next ((next' + i) % 2 ^ 32) s other
            ∙ ap (λ x. has x s) at
            ∙ known (suc i) (omega (arith, in_fuel)) (ap live (sym at) ∙ alive_i)) in
      (sid, rw alive e, small, dead)
]

-- With at most 1024 live sessions, the search for an id ends within 1025 rounds, wherever it begins: the id is a
-- u32 that no live session has, and the next search begins behind it, around the wrap.
pub alloc_sid_free :
    (next : ℕ) (live : List ℕ)
    → IsU32 next
    → length live ≤ max_sessions_per_conn
    → (sid : ℕ) × (alloc_sid (suc max_sessions_per_conn) next (λ s. has s live)
        ≡ some (sid, (sid + 1) % 2 ^ 32))
      × IsU32 sid
      × (has sid live ≡ false)
alloc_sid_free next live u32 few =
    alloc_sid_found (suc max_sessions_per_conn) next (λ s. has s live) live u32 (omega (arith, few))
      (omega arith) (λ i h e. e)

-- Both bounds of a queue.
pub record IsBounded (q : List (List ℕ)) : Type 0 where
  pub few : length q ≤ preauth_sendq_dgrams
  pub light : sum_len q ≤ preauth_sendq_bytes

-- What the loop leaves, and where it is from.
record Room (size n : ℕ) (q : List (List ℕ)) (r : List (List ℕ)) (m : ℕ) : Type 0 where
  few : length r < preauth_sendq_dgrams
  light : sum_len r + size ≤ preauth_sendq_bytes
  gone : List (List ℕ)
  newest : gone ++ r ≡ q
  evicted : m ≡ n + length gone

make_room_lem :
    (size : ℕ) (q : List (List ℕ)) (n : ℕ)
    → size ≤ preauth_sendq_bytes
    → (r : List (List ℕ)) × (m : ℕ) × (make_room size q (sum_len q) n ≡ some (r, m))
      × Room size n q r m
unfolding make_room sum_len
make_room_lem size [] n h =
    let t : (leb preauth_sendq_dgrams 0 || ltb preauth_sendq_bytes (0 + size)) ≡ false =
      ground (arith, h) in
    (
      [],
      n,
      rw t refl,
      record {
        few = omega arith;
        light = omega (arith, h);
        gone = [];
        newest = refl;
        evicted = omega arith;
      },
    )
make_room_lem size (d ∷ q) n h =
    elim (Bool-cases (
      leb preauth_sendq_dgrams (length (d ∷ q))
      || ltb preauth_sendq_bytes (sum_len (d ∷ q) + size))) [
        | inr room ↦ (
          d ∷ q,
          n,
          rw room refl,
          record {
            few = ground (arith, room);
            light = ground (arith, room);
            gone = [];
            newest = refl;
            evicted = omega arith;
          },
        )
        | inl over ↦
            let (r, m, e, k) = make_room_lem size q (n + 1) h in
            let rest : sum_len (d ∷ q) - length d ≡ sum_len q = omega arith in
            (
              r,
              m,
              rw (over, rest) e,
              record {
                few = k.few;
                light = k.light;
                gone = d ∷ k.gone;
                newest = ap (◌∷◌ d) k.newest;
                evicted = omega (arith, k.evicted);
              },
            )
      ]

sum_len-append : (q r : List (List ℕ)) → sum_len (q ++ r) ≡ sum_len q + sum_len r
unfolding sum_len
sum_len-append [] r = omega arith
sum_len-append (d ∷ q) r = omega (arith, sum_len-append q r)

sum_len-one : (p : List ℕ) → sum_len (p ∷ []) ≡ length p
unfolding sum_len
sum_len-one p = omega arith

-- `enqueue` never panics. A datagram over 8 KiB is dropped as one eviction, and the queue stays; any other becomes
-- the last of a queue within both bounds, behind what is left when the oldest, one eviction each, were dropped.
pub enqueue_lem :
    (q : List (List ℕ)) (p : List ℕ)
    → (q' : List (List ℕ)) × (n : ℕ) × (enqueue q p ≡ some (q', n))
      × (if ltb preauth_sendq_bytes (length p)
          then (q' ≡ q) × (n ≡ 1)
          else (gone kept : List (List ℕ)) × (q ≡ gone ++ kept)
            × (q' ≡ kept ++ (p ∷ []))
            × (n ≡ length gone)
            × IsBounded q')
unfolding enqueue
enqueue_lem q p = elim (Bool-cases (ltb preauth_sendq_bytes (length p))) [
  | inl huge ↦ (q, 1, rw huge refl, rw huge (refl, refl))
  | inr fits ↦
      let (r, m, e, k) =
        make_room_lem (length p) q 0 (ltb→ge preauth_sendq_bytes (length p) fits) in
      (
        r ++ (p ∷ []),
        m,
        rw (fits, e) refl,
        rw fits (
          k.gone,
          r,
          sym k.newest,
          refl,
          omega (arith, k.evicted),
          record {
            few = omega (arith, k.few, length-append r (p ∷ []));
            light = omega (arith, k.light, sum_len-append r (p ∷ []), sum_len-one p);
          },
        ),
      )
]
