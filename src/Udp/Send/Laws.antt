-- ===== src/Udp/Send/Laws.antt =====
-- What `send_packet` of crates/mq-proxy/src/udp/send.rs hands to the connection, and what it counts.
use mqproxy.Prelude.{
  ℕ, ◌+◌, ◌-◌, ◌%◌, ◌^◌, ◌≤◌, ◌≡◌, refl, sym, ap, subst, ◌∙◌, List, [], ◌∷◌, ◌++◌, true, false,
  if◌then◌else◌, some, Result, ok, err, ltb, ◌==◌, ==_iff, length, min, map, All, arith, Bool-cases,
  inl, inr, append-nil, length-append,
}
use mqproxy.Wire.UdpMsg.{UdpMsgHdr, SplitError, too_many_frags, zero_mss, encode, split}
use mqproxy.Wire.UdpMsg.Laws.{joined, Numbered, packet_hdr, split_ok, split_errors}
use mqproxy.Udp.Send.{
  Counters, Cx, MssCache, payload, Sending, nothing, datagram, count_frags, run_split, send_fail,
  send_in, send_packet,
}
use mqproxy.Udp.Send.Emits.{yeses, taken, refused, taken_or_refused, Emitted, emit_all-Emitted}

-- The fragments that a split gives, none if it fails.
abbrev pub fragments : Result SplitError (List (UdpMsgHdr × List ℕ)) → List (UdpMsgHdr × List ℕ)
fragments (ok fs) = fs
fragments (err e) = []

-- What is counted: after a split of which `a` fragments went out and `b` failed, each failure, and the fragments
-- if at least two went out; after none, one drop of its kind. Nothing else is.
abbrev pub Counted :
    ℕ → ℕ → Counters → Counters → Result SplitError (List (UdpMsgHdr × List ℕ)) → Type 0
Counted a b c c' (ok fs) =
    (c'.drops_send_fail % 2 ^ 32 ≡ (c.drops_send_fail + b) % 2 ^ 32)
    × (c'.frags_sent ≡ (if ltb 1 a then (c.frags_sent + a) % 2 ^ 32 else c.frags_sent))
    × (c' ≡ record c { drops_send_fail = c'.drops_send_fail; frags_sent = c'.frags_sent })
Counted a b c c' (err too_many_frags) =
    c' ≡ record c { drops_oversize = (c.drops_oversize + 1) % 2 ^ 32 }
Counted a b c c' (err zero_mss) =
    c' ≡ record c { drops_send_fail = (c.drops_send_fail + 1) % 2 ^ 32 }

-- What `send_packet` did, with the cache `m` and the fragments of `r`, on a connection that answers as `cx` says.
pub record Sent (cx : Cx) (c : Counters) (m : MssCache)
    (r : Result SplitError (List (UdpMsgHdr × List ℕ))) (s : Sending) : Type 0 where
  pub log : s.cx.log ≡ cx.log ++ map datagram (fragments r)
  pub small : All (λ d. length d ≤ m.value) (map datagram (fragments r))
  pub frags_ok : s.out.frags_ok ≡ taken cx (length (fragments r))
  pub failed : s.out.failed ≡ refused cx (length (fragments r))
  pub count : s.out.frags_ok + s.out.failed ≡ length (fragments r)
  pub counters :
      Counted (taken cx (length (fragments r))) (refused cx (length (fragments r))) c s.counters r
  pub value : s.mss.value ≡ m.value
  pub countdown : s.mss.countdown ≡ m.countdown - taken cx (length (fragments r))

slices_fit :
    (hdr : UdpMsgHdr) (mss i : ℕ) (fs : List (UdpMsgHdr × List ℕ)) (n : ℕ)
    → Numbered hdr mss i fs
    → length (joined fs) ≤ n
    → All (λ f. length f.1 ≤ min mss n) fs
slices_fit hdr mss i [] n k h = tt
slices_fit hdr mss i ((f, c) ∷ fs) n (e, small, k) h =
    let both = length-append c (joined fs) in
    (omega (arith, small, h, both), slices_fit hdr mss (i + 1) fs n k (omega (arith, h, both)))

length-encode : (h : UdpMsgHdr) → length (encode h) ≡ 9
unfolding encode
length-encode h = refl

datagrams_small :
    (fs : List (UdpMsgHdr × List ℕ)) (mss n value : ℕ)
    → All (λ f. length f.1 ≤ min mss n) fs
    → mss + 9 ≤ value
    → All (λ d. length d ≤ value) (map datagram fs)
datagrams_small [] mss n value all h = tt
datagrams_small ((f, c) ∷ fs) mss n value (k, all) h = (
  omega (arith, k, h, length-append (encode f) c, length-encode f),
  datagrams_small fs mss n value all h,
)

no_split-Sent :
    (cx : Cx) (m : MssCache) (c c' : Counters) (e : SplitError)
    → Counted 0 0 c c' (err e)
    → Sent cx c m (err e) (record { cx = cx; mss = m; counters = c'; out = nothing })
unfolding yeses
no_split-Sent cx m c c' e counted = record {
  log = sym (append-nil cx.log);
  small = tt;
  frags_ok = refl;
  failed = refl;
  count = refl;
  counters = counted;
  value = refl;
  countdown = omega arith;
}

Emitted-Sent :
    (cx : Cx) (m : MssCache) (c : Counters) (fs : List (UdpMsgHdr × List ℕ)) (s : Sending)
    → Emitted
        (record { cx = cx; mss = m; counters = c; out = nothing })
        s
        fs
        (taken cx (length fs))
        (refused cx (length fs))
    → All (λ d. length d ≤ m.value) (map datagram fs)
    → Sent cx c m (ok fs) (count_frags s)
Emitted-Sent cx m c fs s e small =
    let a = taken cx (length fs) in
    let went : s.out.frags_ok ≡ a = omega (arith, e.went) in
    let failed : s.out.failed ≡ refused cx (length fs) = omega (arith, e.failed) in
    let all : s.out.frags_ok + s.out.failed ≡ length fs =
      omega (arith, went, failed, taken_or_refused cx.accepts (length cx.log) (length fs)) in
    let log : s.cx.log ≡ cx.log ++ map datagram fs = ap (λ (x : Cx). x.log) e.cx in
    let same_sent : s.counters.frags_sent ≡ c.frags_sent =
      ap (λ (x : Counters). x.frags_sent) e.others in
    elim (Bool-cases (ltb 1 s.out.frags_ok)) [
      | inl several ↦
          let many : ltb 1 a ≡ true = sym (ap (ltb 1) went) ∙ several in
          rw several (record {
            log = log;
            small = small;
            frags_ok = went;
            failed = failed;
            count = all;
            counters = (
              e.drops,
              rw many (
                  ap (λ n. (n + s.out.frags_ok) % 2 ^ 32) same_sent
                  ∙ ap (λ n. (c.frags_sent + n) % 2 ^ 32) went),
              ap
                  (λ (x : Counters). record x {
                    frags_sent = (s.counters.frags_sent + s.out.frags_ok) % 2 ^ 32;
                  })
                  e.others,
            );
            value = e.value;
            countdown = e.countdown;
          })
      | inr few ↦
          let one : ltb 1 a ≡ false = sym (ap (ltb 1) went) ∙ few in
          rw few (record {
            log = log;
            small = small;
            frags_ok = went;
            failed = failed;
            count = all;
            counters = (
              e.drops,
              rw one same_sent,
              e.others
                  ∙ ap
                      (λ n. record c {
                        drops_send_fail = s.counters.drops_send_fail;
                        frags_sent = n;
                      })
                      (sym same_sent),
            );
            value = e.value;
            countdown = e.countdown;
          })
    ]

run_split-Sent :
    (cx : Cx) (mss : MssCache) (c : Counters) (sid packet_id room : ℕ) (bytes : List ℕ)
    (r : Result SplitError (List (UdpMsgHdr × List ℕ)))
    → split sid packet_id bytes room ≡ r
    → room + 9 ≤ mss.value
    → (s : Sending) × (run_split
          (min room (length bytes))
          (record { cx = cx; mss = mss; counters = c; out = nothing })
          r
        ≡ some s)
      × Sent cx c mss r s
run_split-Sent cx mss c sid packet_id room bytes (err too_many_frags) e h =
    (_, refl, no_split-Sent cx mss c _ too_many_frags refl)
run_split-Sent cx mss c sid packet_id room bytes (err zero_mss) e h =
    (_, refl, no_split-Sent cx mss c _ zero_mss refl)
run_split-Sent cx mss c sid packet_id room bytes (ok fs) e h =
    let (whole, numbered, some_frag, few) = split_ok sid packet_id bytes room fs e in
    let fit =
      slices_fit (packet_hdr sid packet_id (length fs)) room 0 fs (length bytes) numbered
        (omega (arith, ap length whole)) in
    let s0 : Sending = record { cx = cx; mss = mss; counters = c; out = nothing } in
    let (s, out, done) =
      emit_all-Emitted (min room (length bytes)) s0 fs fit (omega (arith, few)) in
    (
      count_frags s,
      rw out refl,
      Emitted-Sent cx mss c fs s done (datagrams_small fs room (length bytes) mss.value fit h),
    )

send_in-Sent :
    (cx : Cx) (m : MssCache) (c : Counters) (sid packet_id room : ℕ) (bytes : List ℕ)
    (r : Result SplitError (List (UdpMsgHdr × List ℕ)))
    → split sid packet_id bytes room ≡ r
    → room ≡ m.value - 9
    → (s : Sending) × (send_in room
          (record { cx = cx; mss = m; counters = c; out = nothing })
          bytes
          r
        ≡ some s)
      × Sent cx c m r s
unfolding send_in
send_in-Sent cx m c sid packet_id room bytes r e h = elim (Bool-cases (room == 0)) [
  | inl shut ↦
      let no_split : err zero_mss ≡ r =
        sym ((split_errors sid packet_id bytes room).0.1 ((==_iff room 0).0 shut)) ∙ e in
      (
        record { cx = cx; mss = m; counters = send_fail c; out = nothing },
        rw shut refl,
        subst
            (λ r.
              Sent cx c m r (record { cx = cx; mss = m; counters = send_fail c; out = nothing }))
            no_split (no_split-Sent cx m c (send_fail c) zero_mss refl),
      )
  | inr wide ↦
      let (s, out, sent) =
        run_split-Sent cx m c sid packet_id room bytes r e (ground (arith, wide, h)) in
      (s, rw wide out, sent)
]

-- `send_packet` does not panic. It hands the fragments of the split at the cached MSS to the connection, each
-- as one datagram no longer than that MSS, all of them and in order even if some fail. `frags_ok` and `failed` are
-- how many of these the connection accepted and refused, without a wrap; each refusal is one `drops_send_fail`, the
-- accepted ones are added to `frags_sent` if there are at least two, and each takes one from the countdown of the
-- MSS cache. If there was no split, that is one drop of its kind. No other counter changes; a counter is a u32 and
-- wraps.
pub send_packet-Sent :
    (cx : Cx) (mss : MssCache) (sid packet_id : ℕ) (bytes : List ℕ) (c : Counters)
    → let (m, room) = payload mss cx in
      (s : Sending) × (send_packet cx mss sid packet_id bytes c ≡ some s)
      × Sent cx c m (split sid packet_id bytes room) s
unfolding send_packet payload
send_packet-Sent cx mss sid packet_id bytes c =
    let (m, room) = payload mss cx in
    send_in-Sent cx m c sid packet_id room bytes (split sid packet_id bytes room) refl refl
