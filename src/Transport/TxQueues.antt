-- ===== src/Transport/TxQueues.antt =====
-- crates/mq-transport/src/txq.rs: the transmit queues, and the connections that wait for room in them.
-- A connection, a path and an address are numbers, of which only the equality is used. Both hash maps are
-- lists of entries; the order in which a map is walked is the list's.
pub mod Queue
pub mod Laws
pub mod Resume
pub mod Contents
use mqproxy.Prelude.{
  ℕ, ◌+◌, ◌-◌, ◌*◌, ◌≡◌, ◌↔◌, List, [], ◌∷◌, ◌++◌, Bool, true, false, not, ◌&&◌, ◌||◌, Option, none,
  some, ltb, leb, ◌==◌, ==_iff, if◌then◌else◌, length, arith,
}
use mqproxy.Prelude.Options.{◌>>=◌}
use mqproxy.Prelude.Maps.{Key, nat_key, lookup, put, erase}
use mqproxy.Transport.TxQueues.Queue.{Transmit}

abbrev pub queue_quota : ℕ
queue_quota = 1024 * 1024

abbrev pub queue_low : ℕ
queue_low = 512 * 1024

abbrev pub total_high : ℕ
total_high = 4 * 1024 * 1024

-- A path of a connection; `none` stands for packets of no connection.
pub record TxKey : Type 0 where
  pub conn : Option ℕ
  pub path : ℕ

unfoldable pub is_conn : Option ℕ → ℕ → Bool
is_conn none c = false
is_conn (some b) c = b == c

unfoldable pub same_conn : Option ℕ → Option ℕ → Bool
unfolding is_conn
same_conn none none = true
same_conn none (some c) = false
same_conn (some b) c = is_conn c b

pub same_conn_iff : (a b : Option ℕ) → (same_conn a b ≡ true) ↔ (a ≡ b)
unfolding same_conn is_conn
same_conn_iff none none = ground arith
same_conn_iff none (some b) = ground arith
same_conn_iff (some a) none = ground arith
same_conn_iff (some a) (some b) = ground arith

unfoldable pub same_key : TxKey → TxKey → Bool
unfolding same_conn
same_key j k = same_conn j.conn k.conn && (j.path == k.path)

pub same_key_iff : (j k : TxKey) → (same_key j k ≡ true) ↔ (j ≡ k)
unfolding same_key
same_key_iff j k = ground (arith, same_conn_iff j.conn k.conn)

instance abbrev pub tx_key : Key TxKey
tx_key = record { same = same_key; same_iff = same_key_iff }

pub data Refusal : Type 0 where
  quota total : Refusal

pub record Blocked : Type 0 where
  pub quota_keys : List TxKey
  pub by_total : Bool

pub record TxQueues : Type 0 where
  pub queues : List (TxKey × Queue.Queue)
  pub total : ℕ
  pub blocked : List (ℕ × Blocked)
  pub resumable : List ℕ

abbrev pub empty : TxQueues
empty = record { queues = []; total = 0; blocked = []; resumable = [] }

abbrev pub or_new : Option Queue.Queue → Queue.Queue
or_new none = Queue.new
or_new (some q) = q

-- `Err` is `some`. The queue is there afterwards even if the packet is refused. `capacity` is what the
-- allocator gave the queue's buffer.
unfoldable pub push : ℕ → TxQueues → TxKey → ℕ → List ℕ → TxQueues × Option Refusal
push capacity t key dst pkt =
    let q = or_new (lookup key t.queues) in
    if ltb queue_quota (q.bytes + length pkt)
    then (record t { queues = put key q t.queues }, some quota)
    else if ltb total_high (t.total + length pkt)
    then (record t { queues = put key q t.queues }, some total)
    else (
      record t {
        queues = put key (Queue.append capacity q dst pkt) t.queues;
        total = t.total + length pkt;
      },
      none,
    )

abbrev pub push_or_drop : ℕ → TxQueues → TxKey → ℕ → List ℕ → TxQueues
push_or_drop capacity t key dst pkt = (push capacity t key dst pkt).0

unfoldable pub contains_key : List TxKey → TxKey → Bool
contains_key [] k = false
contains_key (j ∷ ks) k = same_key j k || contains_key ks k

abbrev pub or_default : Option Blocked → Blocked
or_default none = record { quota_keys = []; by_total = false }
or_default (some b) = b

unfoldable pub blocked_by : Blocked → TxKey → Refusal → Blocked
unfolding contains_key
blocked_by b key quota =
    if contains_key b.quota_keys key
    then b
    else record b { quota_keys = b.quota_keys ++ (key ∷ []) }
blocked_by b key total = record b { by_total = true }

unfoldable pub record_blocked : TxQueues → ℕ → TxKey → Refusal → TxQueues
record_blocked t conn key why = record t {
  blocked = put conn (blocked_by (or_default (lookup conn t.blocked)) key why) t.blocked;
}

-- The keys with something to send.
unfoldable pub busy_keys : List (TxKey × Queue.Queue) → List TxKey
busy_keys [] = []
busy_keys ((k, q) ∷ qs) = let ks = busy_keys qs in if ltb 0 q.bytes then k ∷ ks else ks

abbrev pub keys : TxQueues → List TxKey → List TxKey
keys t out = out ++ busy_keys t.queues

unfoldable pub peek : TxQueues → TxKey → Option Transmit
peek t key = lookup key t.queues >>= Queue.peek

unfoldable pub contains_conn : List ℕ → ℕ → Bool
contains_conn [] c = false
contains_conn (b ∷ bs) c = (b == c) || contains_conn bs c

unfoldable pub below_low : Option Queue.Queue → Bool
below_low none = true
below_low (some q) = ltb q.bytes queue_low

unfoldable pub quota_ok : List (TxKey × Queue.Queue) → Option TxKey → Blocked → Bool
unfolding contains_key below_low
quota_ok queues none b = false
quota_ok queues (some k) b = contains_key b.quota_keys k && below_low (lookup k queues)

unfoldable pub is_ready : TxQueues → Option TxKey → Blocked → Bool
unfolding quota_ok
is_ready t key b = quota_ok t.queues key b || (b.by_total && ltb t.total total_high)

abbrev pub add_once : List ℕ → ℕ → List ℕ
add_once cs c = if contains_conn cs c then cs else cs ++ (c ∷ [])

-- The entries that stay blocked, and the connections that may resume after those of `resumable`.
unfoldable pub resume_loop :
    TxQueues → Option TxKey → List (ℕ × Blocked) → List ℕ → List (ℕ × Blocked) × List ℕ
unfolding is_ready contains_conn
resume_loop t key [] resumable = ([], resumable)
resume_loop t key ((c, b) ∷ bs) resumable =
    let resumed = resume_loop t key bs (add_once resumable c) in
    let stays = resume_loop t key bs resumable in
    if is_ready t key b then resumed else ((c, b) ∷ stays.0, stays.1)

unfoldable pub resumption_pass : TxQueues → Option TxKey → TxQueues
unfolding resume_loop
resumption_pass t key =
    let (blocked, resumable) = resume_loop t key t.blocked t.resumable in
    record t { blocked = blocked; resumable = resumable }

-- The queue of `key` loses its packets; without one nothing is freed. `none` is a panic.
unfoldable pub free : TxQueues → TxKey → ℕ → Option Queue.Queue → Option TxQueues
free t key datagrams none = some t
free t key datagrams (some q) = do
  (q', freed) ← Queue.done q datagrams
  some (record t { queues = put key q' t.queues; total = t.total - freed })

unfoldable pub done : TxQueues → TxKey → ℕ → Option TxQueues
unfolding free resumption_pass
done t key datagrams = do
  t' ← free t key datagrams (lookup key t.queues)
  some (resumption_pass t' (some key))

-- The loop of `drop_conn`: the queues of `conn` go, and their bytes leave the total.
unfoldable pub drop_queues : ℕ → List (TxKey × Queue.Queue) → ℕ → List (TxKey × Queue.Queue) × ℕ
unfolding is_conn
drop_queues conn [] bytes = ([], bytes)
drop_queues conn ((k, q) ∷ qs) bytes =
    let dropped = drop_queues conn qs (bytes - q.bytes) in
    let kept = drop_queues conn qs bytes in
    if is_conn k.conn conn then dropped else ((k, q) ∷ kept.0, kept.1)

unfoldable pub without : List ℕ → ℕ → List ℕ
without [] c = []
without (b ∷ bs) c = let rest = without bs c in if b == c then rest else b ∷ rest

unfoldable pub drop_conn : TxQueues → ℕ → TxQueues
unfolding drop_queues without resumption_pass
drop_conn t conn =
    let (queues, bytes) = drop_queues conn t.queues t.total in
    resumption_pass
      (record {
        queues = queues;
        total = bytes;
        blocked = erase conn t.blocked;
        resumable = without t.resumable conn;
      })
      none

abbrev pub take_resumable : TxQueues → TxQueues × List ℕ
take_resumable t = (record t { resumable = [] }, t.resumable)

abbrev pub resume_pending : TxQueues → Bool
resume_pending t = elim t.resumable [ [] ↦ false | c ∷ cs ↦ true ]
