-- ===== src/Transport/TxQueues/Queue/Bursts.antt =====
-- What `peek` of crates/mq-transport/src/txq.rs offers: the front packets of a queue, in one payload.
use mqproxy.Prelude.{
  ℕ, zero, suc, ◌+◌, ◌-◌, ◌≤◌, ◌≡◌, refl, sym, ap, ◌∙◌, List, [], ◌∷◌, some, length, take, drop,
  arith, All, length-take, length-drop,
}
use mqproxy.Prelude.Slices.{take-take_le, take-add, drop-take}
use mqproxy.Transport.TxQueues.Queue.{Pkt, Queue, Transmit, run, first_run, peek}
use mqproxy.Transport.TxQueues.Queue.Laws.{
  sum, stream, cut, content, joined, IsQueue, length-stream,
}
use mqproxy.Transport.TxQueues.Queue.Runs.{run_lem, sum-take-drop}

take-cut : (k : ℕ) (ps : List Pkt) (s : List ℕ) → take k (cut ps s) ≡ cut (take k ps) s
unfolding cut
take-cut zero ps s = refl
take-cut (suc k) [] s = refl
take-cut (suc k) (p ∷ ps) s = ap (◌∷◌ (p.dst, take p.len s)) (take-cut k ps (drop p.len s))

joined-cut : (ps : List Pkt) (s : List ℕ) → joined (cut ps s) ≡ take (sum ps) s
unfolding joined cut sum
joined-cut [] s = refl
joined-cut (p ∷ ps) s = rw (joined-cut ps (drop p.len s), take-add p.len (sum ps) s) refl

length-cut : (ps : List Pkt) (s : List ℕ) → length (cut ps s) ≡ length ps
unfolding cut
length-cut [] s = refl
length-cut (p ∷ ps) s = ap suc (length-cut ps (drop p.len s))

-- What holds of the packets holds of the payloads.
module _ (P : ℕ → ℕ → Type 0) where
  All-cut :
      (ps : List Pkt) (s : List ℕ)
      → sum ps ≤ length s
      → All (λ p. P p.dst p.len) ps
      → All (λ c. P c.0 (length c.1)) (cut ps s)
  unfolding cut sum
  All-cut [] s h all = tt
  All-cut (p ∷ ps) s h (this, all) =
      let size : length (take p.len s) ≡ p.len = omega (arith, length-take p.len s, h) in
      (rw size this, All-cut ps (drop p.len s) (omega (arith, length-drop p.len s, h)) all)

-- A transmit of the first `k` packets of a queue.
pub record Burst (q : Queue) (t : Transmit) (k : ℕ) : Type 0 where
  pub some_packet : 1 ≤ k
  pub at_most : k ≤ 64
  pub there : k ≤ length (content q)
  pub in_order : t.payload ≡ joined (take k (content q))
  pub one_dst : All (λ c. c.0 ≡ t.dst) (take k (content q))
  pub none_longer : All (λ c. length c.1 ≤ t.segment_size) (take k (content q))
  pub full : All (λ c. length c.1 ≡ t.segment_size) (take (k - 1) (content q))
  pub in_range : q.head + length t.payload ≤ length q.buf

first_goes : (p : Pkt) (ps : List Pkt) → run p.len p.dst 0 (p ∷ ps) ≡ p.len + run p.len p.dst 1 ps
unfolding run
first_goes p ps = ground arith

full_first :
    (p : Pkt) (k : ℕ) (ps : List Pkt)
    → All (λ x. x.len ≡ p.len) (take (k - 1) ps)
    → All (λ x. x.len ≡ p.len) (take k (p ∷ ps))
full_first p zero ps all = tt
full_first p (suc k) ps all = let q : suc k - 1 ≡ k = omega arith in (refl, (rw q at all))

first_run-Burst :
    (q : Queue) (p : Pkt) (ps : List Pkt)
    → q.pkts ≡ p ∷ ps
    → IsQueue q
    → (t : Transmit) × (k : ℕ) × (first_run q (p ∷ ps) ≡ some t) × Burst q t k
unfolding sum
first_run-Burst q p ps e ok =
    let (k, le, r) = run_lem p.len p.dst 1 ps (omega arith) in
    let all : List Pkt = take (suc k) (p ∷ ps) in
    let s : List ℕ = stream q in
    let bytes : run p.len p.dst 0 (p ∷ ps) ≡ sum all =
      first_goes p ps ∙ ap (◌+◌ p.len) r.bytes_of in
    let room : sum all + sum (drop (suc k) (p ∷ ps)) ≡ q.bytes =
      sum-take-drop (suc k) (p ∷ ps) ∙ ap sum (sym e) ∙ sym ok.counted in
    let room' : sum (take k (p ∷ ps)) + sum (drop k (p ∷ ps)) ≡ q.bytes =
      sum-take-drop k (p ∷ ps) ∙ ap sum (sym e) ∙ sym ok.counted in
    let size : length s ≡ q.bytes = length-stream q ok in
    let cuts : take (suc k) (content q) ≡ cut all s =
      ap (λ l. take (suc k) (cut l s)) e ∙ take-cut (suc k) (p ∷ ps) s in
    let cuts' : take k (content q) ≡ cut (take k (p ∷ ps)) s =
      ap (λ l. take k (cut l s)) e ∙ take-cut k (p ∷ ps) s in
    let payload : take (sum all) (drop q.head q.buf) ≡ take (sum all) s =
      sym (
        take-take_le (sum all) (q.tail - q.head) (drop q.head q.buf) (omega (arith, room, ok.span)))
      ∙ ap (take (sum all)) (sym (drop-take q.head q.tail q.buf)) in
    let t : Transmit = record {
      dst = p.dst;
      segment_size = p.len;
      payload = take (run p.len p.dst 0 (p ∷ ps)) (drop q.head q.buf);
    } in
    let less : suc k - 1 ≡ k = omega arith in
    (
      t,
      suc k,
      refl,
      record {
        some_packet = omega arith;
        at_most = omega (arith, le);
        there = omega (arith, ap length e, length-cut q.pkts s, r.k_le);
        in_order = rw (bytes, payload, cuts) (sym (joined-cut all s));
        one_dst =
            rw cuts
              (All-cut (λ d n. d ≡ p.dst) all s (omega (arith, size, room)) (refl, r.one_dst));
        none_longer = rw cuts (
            All-cut (λ d n. n ≤ p.len) all s (omega (arith, size, room))
              (omega arith, r.none_longer));
        full =
            rw (less, cuts')
              (All-cut (λ d n. n ≡ p.len) (take k (p ∷ ps)) s (omega (arith, size, room'))
                (full_first p k ps r.full));
        in_range = omega (
          arith,
          bytes,
          length-take (run p.len p.dst 0 (p ∷ ps)) (drop q.head q.buf),
          room,
          ok.span,
          ok.inside,
        );
      },
    )

-- `peek` offers the first one to 64 packets of a queue that has any: their payloads in order, all for one
-- address, all of the segment size but for the last, which may be shorter; the buffer has them.
pub peek_lem :
    (q : Queue) (p : Pkt) (ps : List Pkt)
    → q.pkts ≡ p ∷ ps
    → IsQueue q
    → (t : Transmit) × (k : ℕ) × (peek q ≡ some t) × Burst q t k
unfolding peek
peek_lem q p ps e ok =
    let (t, k, offered, burst) = first_run-Burst q p ps e ok in
    (t, k, ap (first_run q) e ∙ offered, burst)
