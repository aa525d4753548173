-- ===== src/Tests/QueueTests.antt =====
-- Runs of the queues of crates/mq-transport/src/txq.rs, crates/mq-runtime/src/shard/tx_ring.rs and
-- crates/mq-h3/src/queue.rs.
use mqproxy.Prelude.{◌≡◌, refl, List, [], ◌∷◌, ◌++◌, true, false, some, arith, All}
use mqproxy.Prelude.Maps.{lookup, put}
use mqproxy.Transport.Event.{stream_readable, stream_closed}
use mqproxy.Transport.RingBuf
use mqproxy.Transport.TxQueues
use mqproxy.Transport.TxQueues.{TxKey, tx_key, same_key, is_ready}
use mqproxy.Transport.TxQueues.Queue
use mqproxy.Transport.TxQueues.Queue.Laws.{new-IsQueue, append_lem, IsQueue}
use mqproxy.Transport.TxQueues.Laws.{Reach, start, next, pushed, IsTxQueues, Reach-IsTxQueues}
use mqproxy.Transport.TxQueues.Resume.{is_known, done_resumes}
use mqproxy.Runtime.TxRing.{v4}
use mqproxy.Runtime.TxRing.Fifo.{Op, pushing, sending, Fifo, run, run-Fifo}
use mqproxy.H3.OutQueue
use mqproxy.H3.OutQueue.Laws

abbrev key : TxKey
key = record { conn = some 1; path = 0 }

-- One packet of two bytes waits.
abbrev one_waits : TxQueues.TxQueues
one_waits = (TxQueues.push 64 TxQueues.empty key 9 (5 ∷ 6 ∷ [])).0

one_waits-Reach : Reach one_waits
one_waits-Reach = next start (pushed 64 key 9 (5 ∷ 6 ∷ []) refl)

Reach-IsTxQueues_example : IsTxQueues one_waits
Reach-IsTxQueues_example = Reach-IsTxQueues one_waits-Reach

-- The queue of the key, with the packet.
abbrev one_packet : Queue.Queue
one_packet = record {
  buf = 5 ∷ 6 ∷ [];
  head = 0;
  tail = 2;
  pkts = record { len = 2; dst = 9 } ∷ [];
  bytes = 2;
}

one_waits_queue : lookup key one_waits.queues ≡ some one_packet
unfolding lookup TxQueues.push put same_key Queue.append
one_waits_queue = refl

-- The queues after the packet was sent.
abbrev all_sent : TxQueues.TxQueues
all_sent = record {
  queues = (key, record { buf = 5 ∷ 6 ∷ []; head = 0; tail = 0; pkts = []; bytes = 0 }) ∷ [];
  total = 0;
  blocked = [];
  resumable = 3 ∷ [];
}

-- Connection 3 waits for the total to sink.
abbrev blocked_one : TxQueues.TxQueues
blocked_one = record {
  queues = (key, one_packet) ∷ [];
  total = 2;
  blocked = (3, record { quota_keys = []; by_total = true }) ∷ [];
  resumable = [];
}

sent_run : TxQueues.done blocked_one key 1 ≡ some all_sent
unfolding TxQueues.done lookup put Queue.done same_key
sent_run = refl

done_resumes_example :
    All (λ e. is_ready all_sent (some key) e.1 ≡ false) all_sent.blocked
    × (is_known all_sent 3 ≡ is_known blocked_one 3)
done_resumes_example = done_resumes blocked_one all_sent key 1 3 sent_run

one_packet-IsQueue : IsQueue one_packet
unfolding Queue.Laws.sum
one_packet-IsQueue = record { counted = refl; span = refl; inside = omega arith }

-- A datagram is queued and sent.
abbrev ops : List Op
ops = pushing (v4 (10 ∷ 0 ∷ 0 ∷ 1 ∷ []) 53) (1 ∷ 2 ∷ []) ∷ sending ∷ []

run-Fifo_example : Fifo [] (run (RingBuf.new 64) ops)
run-Fifo_example = run-Fifo 64 ops ((refl, omega arith), (tt, tt))

-- A readable stream is reported twice, and then closed.
abbrev events : List OutQueue.Laws.Op
events =
    OutQueue.Laws.pushing (stream_readable (record { index = 1; generation = 1 }))
    ∷ OutQueue.Laws.pushing (stream_readable (record { index = 1; generation = 1 }))
    ∷ OutQueue.Laws.pushing (stream_closed (record { index = 1; generation = 1 }))
    ∷ OutQueue.Laws.popping (λ e. false)
    ∷ []

run-IsOutQueue_example : OutQueue.Laws.IsOutQueue (OutQueue.Laws.run OutQueue.default events).0
run-IsOutQueue_example = OutQueue.Laws.run-IsOutQueue events

run-closes_example :
    let (o', out) = OutQueue.Laws.run OutQueue.default events in
    OutQueue.Laws.closes out ++ OutQueue.Laws.closes o'.q
    ≡ OutQueue.Laws.closes [] ++ OutQueue.Laws.closes (OutQueue.Laws.pushed events)
run-closes_example = OutQueue.Laws.run-closes OutQueue.default events
