-- ===== src/Udp/PreOpen/Laws.antt =====
-- The bounds of the buffer of crates/mq-proxy/src/udp/preopen.rs, and what it gives back.
use mqproxy.Prelude.{
  ℕ, zero, suc, ◌+◌, ◌-◌, ◌≤◌, ◌<◌, ◌≡◌, refl, ap, ◌∙◌, List, [], ◌∷◌, ◌++◌, Bool, not, ◌&&◌, ◌||◌,
  ltb, leb, ◌==◌, if◌then◌else◌, length, length-append, arith, append_assoc, append-nil, drop, sym,
  Bool-cases, inl, inr, ltb→ge,
}
use mathlib.Core.List.{map}
use mqproxy.Udp.PreOpen.{
  Entry, PreOpen, sweep, evict, push, take_loop, take, total, retain, is_stale, preopen_dgrams,
  preopen_bytes, preopen_ttl,
}

-- The byte count is exact, and both limits hold.
pub record IsBounded (p : PreOpen) : Type 0 where
  pub exact : p.bytes ≡ total p.q
  pub few : length p.q ≤ preopen_dgrams
  pub light : p.bytes ≤ preopen_bytes

sweep-IsBounded :
    (now : ℕ) (q : List Entry) (bytes : ℕ)
    → IsBounded (record { q = q; bytes = bytes })
    → IsBounded (sweep now q bytes)
unfolding sweep total
sweep-IsBounded now [] bytes v = v
sweep-IsBounded now (e ∷ q) bytes v =
    ground (arith, sweep-IsBounded now q (bytes - length e.datagram))

-- What eviction leaves has room for one more datagram of `size` bytes.
evict_room :
    (size : ℕ) (q : List Entry) (bytes n : ℕ)
    → IsBounded (record { q = q; bytes = bytes })
    → size ≤ preopen_bytes
    → let (r, m) = evict size q bytes n in
      (r.bytes ≡ total r.q)
      × (length r.q < preopen_dgrams)
      × (r.bytes + size ≤ preopen_bytes)
      × (m + length r.q ≡ n + length q)
unfolding evict total
evict_room size [] bytes n v h = ground arith
evict_room size (e ∷ q) bytes n v h =
    ground (arith, evict_room size q (bytes - length e.datagram) (n + 1))

total-append : (q r : List Entry) → total (q ++ r) ≡ total q + total r
unfolding total
total-append [] r = omega arith
total-append (e ∷ q) r = omega (arith, total-append q r)

total-one : (e : Entry) → total (e ∷ []) ≡ length e.datagram
unfolding total
total-one e = omega arith

-- `push` keeps the byte count exact and both limits, whatever it is given.
pub push-IsBounded :
    (p : PreOpen) (now sid : ℕ) (datagram : List ℕ)
    → IsBounded p
    → IsBounded (push p now sid datagram).0
unfolding push
push-IsBounded p now sid datagram v =
    let w = sweep now p.q p.bytes in
    let b =
      sweep-IsBounded now p.q p.bytes (record { exact = v.exact; few = v.few; light = v.light }) in
    elim (Bool-cases (ltb preopen_bytes (length datagram))) [
      | inl huge ↦ rw huge b
      | inr fits ↦
          let (exact, few, light, evicted) =
            evict_room (length datagram) w.q w.bytes 0
              (record { exact = b.exact; few = b.few; light = b.light })
              (ltb→ge preopen_bytes (length datagram) fits) in
          let kept = (evict (length datagram) w.q w.bytes 0).0.q in
          let entry : Entry = record { sid = sid; at = now; datagram = datagram } in
          rw fits (record {
            exact = omega (arith, total-append kept (entry ∷ []), total-one entry);
            few = omega (arith, length-append kept (entry ∷ []));
            light = light;
          })
    ]

sweep-drop : (now : ℕ) (q : List Entry) (bytes : ℕ) → (k : ℕ) × ((sweep now q bytes).q ≡ drop k q)
unfolding sweep
sweep-drop now [] bytes = (0, refl)
sweep-drop now (e ∷ q) bytes = elim (Bool-cases (is_stale now e)) [
  | inl stale ↦ let (k, d) = sweep-drop now q (bytes - length e.datagram) in (suc k, rw stale d)
  | inr current ↦ (0, rw current refl)
]

evict-drop :
    (size : ℕ) (q : List Entry) (bytes n : ℕ) → (k : ℕ) × ((evict size q bytes n).0.q ≡ drop k q)
unfolding evict
evict-drop size [] bytes n = (0, refl)
evict-drop size (e ∷ q) bytes n =
    elim (Bool-cases (leb preopen_dgrams (length (e ∷ q)) || ltb preopen_bytes (bytes + size))) [
      | inl full ↦
          let (k, d) = evict-drop size q (bytes - length e.datagram) (n + 1) in (suc k, rw full d)
      | inr room ↦ (0, rw room refl)
    ]

drop-drop {ℓ} : {A : Type ℓ} (m n : ℕ) (xs : List A) → (k : ℕ) × (drop n (drop m xs) ≡ drop k xs)
drop-drop zero n xs = (n, refl)
drop-drop (suc m) zero [] = (0, refl)
drop-drop (suc m) (suc n) [] = (0, refl)
drop-drop (suc m) n (x ∷ xs) = let (k, e) = drop-drop m n xs in (suc k, e)

-- `push` drops only the oldest entries, and appends the new datagram behind the others, unless it is
-- longer than the whole buffer: then it is dropped, as one eviction.
pub push_keeps_newest :
    (p : PreOpen) (now sid : ℕ) (datagram : List ℕ)
    → (k : ℕ) × (let (r, evictions) = push p now sid datagram in
        if ltb preopen_bytes (length datagram)
        then (r.q ≡ drop k p.q) × (evictions ≡ 1)
        else (r.q ≡ drop k p.q ++ (record { sid = sid; at = now; datagram = datagram } ∷ []))
          × Unit {0})
unfolding push
push_keeps_newest p now sid datagram =
    let w = sweep now p.q p.bytes in
    let (i, swept) = sweep-drop now p.q p.bytes in
    let (j, evicted) = evict-drop (length datagram) w.q w.bytes 0 in
    let (k, both) = drop-drop i j p.q in
    elim (Bool-cases (ltb preopen_bytes (length datagram))) [
      | inl huge ↦ (i, rw huge (swept, refl))
      | inr fits ↦ (
        k,
        rw fits (
          ap (λ t. t ++ (record { sid = sid; at = now; datagram = datagram } ∷ []))
              (evicted ∙ ap (drop j) swept ∙ both),
          tt,
        ),
      )
    ]

-- The entries of a session, and its datagrams that are still in time.
abbrev pub is_of : ℕ → Entry → Bool
is_of sid e = e.sid == sid

abbrev pub in_time : ℕ → ℕ → Entry → Bool
in_time now sid e = (e.sid == sid) && leb (now - e.at) preopen_ttl

take_loop_lem :
    (now sid : ℕ) (q kept : List Entry) (bytes : ℕ) (out : List (List ℕ))
    → bytes ≡ total kept + total q
    → let (r, taken) = take_loop now sid q kept bytes out in
      (r.q ≡ kept ++ retain (λ e. not (e.sid == sid)) q)
      × (taken ≡ out ++ map (λ e. e.datagram) (retain (in_time now sid) q))
      × (r.bytes ≡ total r.q)
unfolding take_loop retain total
take_loop_lem now sid [] kept bytes out h =
    (sym (append-nil kept), sym (append-nil out), omega arith)
take_loop_lem now sid (e ∷ q) kept bytes out h = elim (Bool-cases (e.sid == sid)) [
  | inr other ↦
      let (a, b, c) =
        take_loop_lem now sid q (kept ++ (e ∷ [])) bytes out
          (omega (arith, total-append kept (e ∷ []), total-one e)) in
      rw other (a ∙ append_assoc kept (e ∷ []) _, b, c)
  | inl mine ↦ elim (Bool-cases (leb (now - e.at) preopen_ttl)) [
    | inl current ↦
        let (a, b, c) =
          take_loop_lem now sid q kept (bytes - length e.datagram) (out ++ (e.datagram ∷ []))
            (omega arith) in
        rw (mine, current) (a, b ∙ append_assoc out (e.datagram ∷ []) _, c)
    | inr stale ↦
        let (a, b, c) =
          take_loop_lem now sid q kept (bytes - length e.datagram) out (omega arith) in
        rw (mine, stale) (a, b, c)
  ]
]

zero-total : (q : List Entry) → total q ≡ total [] + total q
unfolding total
zero-total q = omega arith

-- From an exact byte count, `take` gives the session's datagrams that are still in time, in order of
-- arrival, leaves exactly the entries of the other sessions, in order, and the count stays exact.
pub take_lem :
    (p : PreOpen) (now sid : ℕ)
    → p.bytes ≡ total p.q
    → let (r, taken) = take p now sid in
      (r.q ≡ retain (λ e. not (e.sid == sid)) p.q)
      × (taken ≡ map (λ e. e.datagram) (retain (in_time now sid) p.q))
      × (r.bytes ≡ total r.q)
unfolding take
take_lem p now sid h = take_loop_lem now sid p.q [] p.bytes [] (h ∙ zero-total p.q)
