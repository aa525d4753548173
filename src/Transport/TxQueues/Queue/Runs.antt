-- ===== src/Transport/TxQueues/Queue/Runs.antt =====
-- What a queue of crates/mq-transport/src/txq.rs sends from its head, and what it drops.
use mqproxy.Prelude.{
  ℕ, zero, suc, ◌+◌, ◌-◌, ◌≤◌, ◌≡◌, ◌≢◌, refl, sym, ap, ◌∙◌, List, [], ◌∷◌, false, not, ◌||◌, some,
  length, take, drop, arith, ltb, ◌==◌, All, Bool-cases, inl, inr, ltb→ge,
}
use mqproxy.Prelude.Options.{>>=-eq-some}
use mqproxy.Prelude.Slices.{drop-drop}
use mqproxy.Transport.TxQueues.Queue.{Pkt, Queue, run, pop_loop, rewind, done}
use mqproxy.Transport.TxQueues.Queue.Laws.{sum, stream, cut, content, IsQueue}

pop_loop_lem :
    (n : ℕ) (ps : List Pkt) (freed : ℕ)
    → n ≤ length ps
    → pop_loop n ps freed ≡ some (drop n ps, freed + sum (take n ps))
unfolding pop_loop sum
pop_loop_lem zero ps freed h = let q : freed + 0 ≡ freed = omega arith in rw q refl
pop_loop_lem (suc n) [] freed h = absurd (omega (arith, h))
pop_loop_lem (suc n) (p ∷ ps) freed h =
    let q : freed + p.len + sum (take n ps) ≡ freed + (p.len + sum (take n ps)) = omega arith in
    rw (pop_loop_lem n ps (freed + p.len) (omega (arith, h)), q) refl

pop_loop_ok :
    (n : ℕ) (ps rest : List Pkt) (freed total : ℕ)
    → pop_loop n ps freed ≡ some (rest, total)
    → n ≤ length ps
unfolding pop_loop
pop_loop_ok zero ps rest freed total e = omega arith
pop_loop_ok (suc n) [] rest freed total e = cc
pop_loop_ok (suc n) (p ∷ ps) rest freed total e =
    omega (arith, pop_loop_ok n ps rest (freed + p.len) total e)

-- Only of a queue with so many packets.
pub done_ok : (q q' : Queue) (n freed : ℕ) → done q n ≡ some (q', freed) → n ≤ length q.pkts
unfolding done
done_ok q q' n freed e =
    let ((rest, total), popped, e') = >>=-eq-some (pop_loop n q.pkts 0) _ e in
    pop_loop_ok n q.pkts rest 0 total popped

drop-cut :
    (n : ℕ) (ps : List Pkt) (s : List ℕ)
    → drop n (cut ps s) ≡ cut (drop n ps) (drop (sum (take n ps)) s)
unfolding cut sum
drop-cut zero ps s = refl
drop-cut (suc n) [] s = refl
drop-cut (suc n) (p ∷ ps) s =
    rw (drop-cut n ps (drop p.len s), drop-drop p.len (sum (take n ps)) s) refl

pub sum-take-drop : (n : ℕ) (ps : List Pkt) → sum (take n ps) + sum (drop n ps) ≡ sum ps
unfolding sum
sum-take-drop zero ps = omega arith
sum-take-drop (suc n) [] = refl
sum-take-drop (suc n) (p ∷ ps) = omega (arith, sum-take-drop n ps)

rewind_lem :
    (q : Queue) (ps : List Pkt)
    → q.pkts ≡ ps
    → IsQueue q
    → IsQueue (rewind q ps) × (content (rewind q ps) ≡ content q) × ((rewind q ps).bytes ≡ q.bytes)
unfolding sum cut
rewind_lem q [] e k =
    let empty : q.bytes ≡ 0 = k.counted ∙ ap sum e in
    (
      record { counted = k.counted; span = omega (arith, empty); inside = omega arith },
      ap (λ l. cut l []) e ∙ sym (ap (λ l. cut l (stream q)) e),
      refl,
    )
rewind_lem q (p ∷ ps) e k = (k, refl, refl)

-- Of a queue with so many packets, `done` drops that many from the front and frees their bytes.
pub done_lem :
    (q : Queue) (n : ℕ)
    → IsQueue q
    → n ≤ length q.pkts
    → (q' : Queue) × (freed : ℕ) × (done q n ≡ some (q', freed))
      × (content q' ≡ drop n (content q))
      × IsQueue q'
      × (q'.bytes + freed ≡ q.bytes)
unfolding done
done_lem q n k h =
    let freed : ℕ = sum (take n q.pkts) in
    let total : freed + sum (drop n q.pkts) ≡ sum q.pkts = sum-take-drop n q.pkts in
    let q1 : Queue = record q {
      head = q.head + freed;
      pkts = drop n q.pkts;
      bytes = q.bytes - freed;
    } in
    let k1 : IsQueue q1 = record {
      counted = omega (arith, total, k.counted);
      span = omega (arith, total, k.counted, k.span);
      inside = k.inside;
    } in
    let (k2, same, bytes) = rewind_lem q1 (drop n q.pkts) refl k1 in
    let popped : pop_loop n q.pkts 0 ≡ some (drop n q.pkts, freed) =
      pop_loop_lem n q.pkts 0 h ∙ ap (λ (t : ℕ). some (drop n q.pkts, t)) (omega arith) in
    (
      rewind q1 (drop n q.pkts),
      freed,
      rw popped refl,
      same
          ∙ ap (cut (drop n q.pkts)) (sym (drop-drop q.head freed (take q.tail q.buf)))
          ∙ sym (drop-cut n q.pkts (stream q)),
      k2,
      omega (arith, bytes, total, k.counted),
    )

-- The packets of a run: all for one address, none longer than the first, and only the last may be shorter.
pub record Run (len dst : ℕ) (ps : List Pkt) (k bytes : ℕ) : Type 0 where
  pub bytes_of : bytes ≡ sum (take k ps)
  pub k_le : k ≤ length ps
  pub one_dst : All (λ p. p.dst ≡ dst) (take k ps)
  pub none_longer : All (λ p. p.len ≤ len) (take k ps)
  pub full : All (λ p. p.len ≡ len) (take (k - 1) ps)

pub run_lem :
    (len dst i : ℕ) (ps : List Pkt)
    → i ≤ 64
    → (k : ℕ) × (i + k ≤ 64) × Run len dst ps k (run len dst i ps)
unfolding run sum
run_lem len dst i [] h = (
  0,
  omega (arith, h),
  record { bytes_of = refl; k_le = omega arith; one_dst = tt; none_longer = tt; full = tt },
)
run_lem len dst i (p ∷ ps) h =
    elim (Bool-cases ((i == 64) || not (p.dst == dst) || ltb len p.len)) [
      | inl stops ↦ (
        0,
        omega (arith, h),
        rw stops (record {
          bytes_of = refl;
          k_le = omega arith;
          one_dst = tt;
          none_longer = tt;
          full = tt;
        }),
      )
      | inr goes ↦
          let (below, here, fits) = may_go i p len dst goes in
          elim (Bool-cases (ltb p.len len)) [
            | inl shorter ↦ (
              1,
              omega (arith, h, below),
              rw (goes, shorter)
                  (record {
                    bytes_of = omega arith;
                    k_le = omega arith;
                    one_dst = (here, tt);
                    none_longer = (fits, tt);
                    full = tt;
                  }),
            )
            | inr same ↦
                let (k, le, r) = run_lem len dst (i + 1) ps (omega (arith, h, below)) in
                let equal : p.len ≡ len = omega (arith, fits, ltb→ge p.len len same) in
                (
                  suc k,
                  omega (arith, le),
                  rw (goes, same)
                      (record {
                        bytes_of = omega (arith, r.bytes_of);
                        k_le = omega (arith, r.k_le);
                        one_dst = (here, r.one_dst);
                        none_longer = (fits, r.none_longer);
                        full = full_after k r.full equal;
                      }),
                )
          ]
    ]
  where
    may_go :
        (i : ℕ) (p : Pkt) (len dst : ℕ)
        → ((i == 64) || not (p.dst == dst) || ltb len p.len) ≡ false
        → (i ≢ 64) × (p.dst ≡ dst) × (p.len ≤ len)
    may_go i p len dst e = ground arith

    full_after :
        (k : ℕ)
        → All (λ p. p.len ≡ len) (take (k - 1) ps)
        → p.len ≡ len
        → All (λ p. p.len ≡ len) (take (suc k - 1) (p ∷ ps))
    full_after zero all e = tt
    full_after (suc k) all e =
        let q : suc (suc k) - 1 ≡ suc k = omega arith in
        let q' : suc k - 1 ≡ k = omega arith in rw q (e, (rw q' at all))
