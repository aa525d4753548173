-- ===== src/Udp/Send/Emits.antt =====
-- What the closure of `send_packet` (crates/mq-proxy/src/udp/send.rs) does over a run of fragments.
use mqproxy.Prelude.{
  ℕ, zero, suc, ◌+◌, ◌-◌, ◌%◌, ◌^◌, ◌≤◌, ◌<◌, ◌≡◌, refl, sym, ap, ◌∙◌, List, [], ◌∷◌, ◌++◌, Bool,
  true, false, not, some, ltb, length, map, All, arith, append_assoc, append-nil, length-append,
}
use mqproxy.Wire.UdpMsg.{UdpMsgHdr}
use mqproxy.Udp.Send.{Counters, Cx, Sending, was_sent, datagram, emit, emit_all}

abbrev pub one_if : Bool → ℕ
one_if true = 1
one_if false = 0

-- How many of the answers from number `i` on, `n` of them, are yes.
unfoldable pub yeses : (ℕ → Bool) → ℕ → ℕ → ℕ
yeses answer i zero = 0
yeses answer i (suc n) = one_if (answer i) + yeses answer (i + 1) n

-- The datagrams that the connection takes, and those that it refuses, of the next `n`.
abbrev pub taken : Cx → ℕ → ℕ
taken cx n = yeses cx.accepts (length cx.log) n

abbrev pub refused : Cx → ℕ → ℕ
refused cx n = yeses (λ i. not (cx.accepts i)) (length cx.log) n

pub taken_or_refused :
    (answer : ℕ → Bool) (i n : ℕ) → yeses answer i n + yeses (λ j. not (answer j)) i n ≡ n
unfolding yeses
taken_or_refused answer i zero = refl
taken_or_refused answer i (suc n) = both (answer i) (taken_or_refused answer (i + 1) n)
  where
    both :
        (b : Bool)
        → yeses answer (i + 1) n + yeses (λ j. not (answer j)) (i + 1) n ≡ n
        → (one_if b + yeses answer (i + 1) n)
            + (one_if (not b) + yeses (λ j. not (answer j)) (i + 1) n)
          ≡ suc n
    both true h = omega (arith, h)
    both false h = omega (arith, h)

-- What the emits of fragments changed, of which `a` went out and `b` failed: each was handed over as one datagram,
-- in order, and counted by its answer.
pub record Emitted (s s' : Sending) (fs : List (UdpMsgHdr × List ℕ)) (a b : ℕ) : Type 0 where
  pub cx : s'.cx ≡ record s.cx { log = s.cx.log ++ map datagram fs }
  pub went : s'.out.frags_ok ≡ s.out.frags_ok + a
  pub failed : s'.out.failed ≡ s.out.failed + b
  pub drops : s'.counters.drops_send_fail % 2 ^ 32 ≡ (s.counters.drops_send_fail + b) % 2 ^ 32
  pub others : s'.counters ≡ record s.counters { drops_send_fail = s'.counters.drops_send_fail }
  pub value : s'.mss.value ≡ s.mss.value
  pub countdown : s'.mss.countdown ≡ s.mss.countdown - a

was_sent-Emitted :
    (s : Sending) (f : UdpMsgHdr × List ℕ) (b : Bool)
    → s.out.frags_ok + s.out.failed < 255
    → Emitted s
        (was_sent s (record s.cx { log = s.cx.log ++ (datagram f ∷ []) }) b)
        (f ∷ [])
        (one_if b)
        (one_if (not b))
was_sent-Emitted s f true h = record {
  cx = refl;
  went = omega (arith, h);
  failed = omega (arith, h);
  drops = omega arith;
  others = refl;
  value = refl;
  countdown = refl;
}
was_sent-Emitted s f false h = record {
  cx = refl;
  went = omega (arith, h);
  failed = omega (arith, h);
  drops = omega arith;
  others = refl;
  value = refl;
  countdown = omega arith;
}

-- The answers after the first.
next_answers :
    (cx cx' : Cx) (d : List ℕ) (test : Bool → Bool) (n : ℕ)
    → cx' ≡ record cx { log = cx.log ++ (d ∷ []) }
    → yeses (λ i. test (cx'.accepts i)) (length cx'.log) n
      ≡ yeses (λ i. test (cx.accepts i)) (length cx.log + 1) n
next_answers cx cx' d test n e =
    ap (λ (c : Cx). yeses (λ i. test (c.accepts i)) (length c.log) n) e
    ∙ ap (λ k. yeses (λ i. test (cx.accepts i)) k n) (length-append cx.log (d ∷ []))

pub emit_all-Emitted :
    (body : ℕ) (s : Sending) (fs : List (UdpMsgHdr × List ℕ))
    → All (λ f. length f.1 ≤ body) fs
    → s.out.frags_ok + s.out.failed + length fs ≤ 255
    → (s' : Sending) × (emit_all body s fs ≡ some s')
      × Emitted s s' fs (taken s.cx (length fs)) (refused s.cx (length fs))
unfolding emit_all emit yeses
emit_all-Emitted body s [] short few = (
  s,
  refl,
  record {
    cx = ap (λ x. record s.cx { log = x }) (sym (append-nil s.cx.log));
    went = omega arith;
    failed = omega arith;
    drops = omega arith;
    others = refl;
    value = refl;
    countdown = omega arith;
  },
)
emit_all-Emitted body s (f ∷ fs) (fits, short) few =
    let room : ltb body (length f.1) ≡ false = ground (arith, fits) in
    let b = s.cx.accepts (length s.cx.log) in
    let s1 = was_sent s (record s.cx { log = s.cx.log ++ (datagram f ∷ []) }) b in
    let one = was_sent-Emitted s f b (omega (arith, few)) in
    let (s', e, rest) =
      emit_all-Emitted body s1 fs short (omega (arith, few, one.went, one.failed, one_or_none b)) in
    let yes = next_answers s.cx s1.cx (datagram f) (λ x. x) (length fs) one.cx in
    let no = next_answers s.cx s1.cx (datagram f) not (length fs) one.cx in
    (
      s',
      rw room e,
      record {
        cx =
            rest.cx
            ∙ ap (λ (c : Cx). record c { log = c.log ++ map datagram fs }) one.cx
            ∙ ap (λ x. record s.cx { log = x }) (append_assoc s.cx.log (datagram f ∷ []) _);
        went = omega (arith, one.went, rest.went, yes);
        failed = omega (arith, one.failed, rest.failed, no);
        drops = omega (arith, one.drops, rest.drops, no);
        others =
            rest.others
            ∙ ap (λ (c : Counters). record c { drops_send_fail = s'.counters.drops_send_fail })
                one.others;
        value = rest.value ∙ one.value;
        countdown = omega (arith, one.countdown, rest.countdown, yes);
      },
    )
  where
    one_or_none : (b : Bool) → one_if b + one_if (not b) ≡ 1
    one_or_none true = refl
    one_or_none false = refl
