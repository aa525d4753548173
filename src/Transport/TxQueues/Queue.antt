-- ===== src/Transport/TxQueues/Queue.antt =====
-- `Queue` of crates/mq-transport/src/txq.rs: packets behind one another in one buffer.
pub mod Laws
pub mod Runs
pub mod Bursts
use mqproxy.Prelude.{
  ℕ, zero, suc, ◌+◌, ◌-◌, List, [], ◌∷◌, ◌++◌, Bool, not, ◌||◌, Option, none, some, ltb, ◌==◌,
  if◌then◌else◌, length, take, drop,
}
use mqproxy.Prelude.Options.{◌>>=◌}

pub record Pkt : Type 0 where
  pub len : ℕ
  pub dst : ℕ

pub record Queue : Type 0 where
  pub buf : List ℕ
  pub head : ℕ
  pub tail : ℕ
  pub pkts : List Pkt
  pub bytes : ℕ

pub record Transmit : Type 0 where
  pub dst : ℕ
  pub segment_size : ℕ
  pub payload : List ℕ

abbrev pub new : Queue
new = record { buf = []; head = 0; tail = 0; pkts = []; bytes = 0 }

-- `copy_within(head..tail, 0)`.
abbrev pub compact : Queue → Queue
compact q = record q {
  buf = take (q.tail - q.head) (drop q.head q.buf) ++ drop (q.tail - q.head) q.buf;
  head = 0;
  tail = q.tail - q.head;
}

abbrev pub extend : Queue → ℕ → List ℕ → Queue
extend q dst pkt = record q {
  buf = take q.tail q.buf ++ pkt;
  tail = q.tail + length pkt;
  pkts = q.pkts ++ (record { len = length pkt; dst = dst } ∷ []);
  bytes = q.bytes + length pkt;
}

-- `capacity` is what the allocator gave the buffer.
unfoldable pub append : ℕ → Queue → ℕ → List ℕ → Queue
append capacity q dst pkt =
    extend (if ltb capacity (q.tail + length pkt) then compact q else q) dst pkt

-- The loop of `peek` from packet `i` on: the bytes of the run. `len` and `dst` are the first packet's.
unfoldable pub run : ℕ → ℕ → ℕ → List Pkt → ℕ
run len dst i [] = 0
run len dst i (p ∷ ps) =
    let more = run len dst (i + 1) ps in
    if (i == 64) || not (p.dst == dst) || ltb len p.len
    then 0
    else if ltb p.len len
    then p.len
    else p.len + more

abbrev pub first_run : Queue → List Pkt → Option Transmit
first_run q [] = none
first_run q (p ∷ ps) = some (record {
  dst = p.dst;
  segment_size = p.len;
  payload = take (run p.len p.dst 0 (p ∷ ps)) (drop q.head q.buf);
})

unfoldable pub peek : Queue → Option Transmit
unfolding run
peek q = first_run q q.pkts

-- The packets left and the bytes freed; `none` is the panic of `unwrap`.
unfoldable pub pop_loop : ℕ → List Pkt → ℕ → Option (List Pkt × ℕ)
pop_loop zero ps freed = some (ps, freed)
pop_loop (suc n) [] freed = none
pop_loop (suc n) (p ∷ ps) freed = pop_loop n ps (freed + p.len)

abbrev pub rewind : Queue → List Pkt → Queue
rewind q [] = record q { head = 0; tail = 0 }
rewind q (p ∷ ps) = q

-- The queue, and the bytes freed.
unfoldable pub done : Queue → ℕ → Option (Queue × ℕ)
unfolding pop_loop
done q datagrams = do
  (ps, freed) ← pop_loop datagrams q.pkts 0
  some (rewind (record q { head = q.head + freed; pkts = ps; bytes = q.bytes - freed }) ps, freed)
