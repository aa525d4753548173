-- ===== src/Transport/TxQueues/Laws.antt =====
-- The limits and the contents of the queues of crates/mq-transport/src/txq.rs.
use mqproxy.Prelude.{
  ℕ, ◌+◌, ◌-◌, ◌≤◌, ◌≡◌, refl, sym, ap, subst, List, [], ◌∷◌, Option, none, some, length, arith,
  ltb, if_elim, All, Bool-cases, inl, inr, ltb→ge,
}
use mqproxy.Prelude.Options.{>>=-eq-some}
use mqproxy.Prelude.Maps.{
  lookup, put, weigh, weigh?, weigh-put, weigh-lookup_le, All-put, All-lookup,
}
use mqproxy.Transport.TxQueues.Queue
use mqproxy.Transport.TxQueues.Queue.Laws.{IsQueue, new-IsQueue, append_lem, bytes-append}
use mqproxy.Transport.TxQueues.Queue.Runs.{done_lem, done_ok}
use mqproxy.Transport.TxQueues.{
  TxKey, tx_key, Refusal, TxQueues, empty, or_new, push, queue_quota, total_high, record_blocked,
  free, done, drop_queues, drop_conn, is_conn, resumption_pass, take_resumable,
}

abbrev pub IsEntry : TxKey × Queue.Queue → Type 0
IsEntry e = IsQueue e.1 × (e.1.bytes ≤ queue_quota)

abbrev pub bytes_of : Queue.Queue → ℕ
bytes_of q = q.bytes

-- The total is that of the queues, and both limits hold.
pub record IsTxQueues (t : TxQueues) : Type 0 where
  pub queues : All IsEntry t.queues
  pub counted : t.total ≡ weigh bytes_of t.queues
  pub bounded : t.total ≤ total_high

pub empty-IsTxQueues : IsTxQueues empty
unfolding weigh
empty-IsTxQueues = record { queues = tt; counted = refl; bounded = omega arith }

pub or_new-IsEntry :
    (t : TxQueues) (key : TxKey) (o : Option Queue.Queue)
    → lookup key t.queues ≡ o
    → IsTxQueues t
    → IsEntry (key, or_new o) × (weigh? bytes_of o ≡ (or_new o).bytes)
or_new-IsEntry t key none e ok = ((new-IsQueue, omega arith), refl)
or_new-IsEntry t key (some q) e ok = (All-lookup IsEntry key q t.queues ok.queues e, refl)

-- A queue is replaced by one in order.
put-IsTxQueues :
    (t : TxQueues) (key : TxKey) (q : Queue.Queue) (all : ℕ)
    → IsTxQueues t
    → IsEntry (key, q)
    → all + (or_new (lookup key t.queues)).bytes ≡ t.total + q.bytes
    → all ≤ total_high
    → IsTxQueues (record t { queues = put key q t.queues; total = all })
put-IsTxQueues t key q all ok k e le =
    let (old, w) = or_new-IsEntry t key (lookup key t.queues) refl ok in
    record {
      queues = All-put IsEntry key q t.queues ok.queues k;
      counted = omega (arith, weigh-put bytes_of key q t.queues, w, ok.counted, e);
      bounded = le;
    }

push-IsTxQueues :
    (capacity : ℕ) (t : TxQueues) (key : TxKey) (dst : ℕ) (pkt : List ℕ)
    → IsTxQueues t
    → IsTxQueues (push capacity t key dst pkt).0
unfolding push
push-IsTxQueues capacity t key dst pkt ok =
    let q : Queue.Queue = or_new (lookup key t.queues) in
    let (old, w) = or_new-IsEntry t key (lookup key t.queues) refl ok in
    let P = λ (r : TxQueues × Option Refusal). IsTxQueues r.0 in
    let same = put-IsTxQueues t key q t.total ok old refl ok.bounded in
    if_elim P (ltb queue_quota (q.bytes + length pkt)) (λ full. same)
      λ fits.
        if_elim P (ltb total_high (t.total + length pkt)) (λ full. same)
          λ fits'.
            let (k, put_last) = append_lem capacity q dst pkt old.0 in
            let more : (Queue.append capacity q dst pkt).bytes ≡ q.bytes + length pkt =
              bytes-append capacity q dst pkt in
            put-IsTxQueues t key (Queue.append capacity q dst pkt) (t.total + length pkt) ok
              (k, omega (arith, more, ltb→ge queue_quota (q.bytes + length pkt) fits))
              (omega (arith, more)) (ltb→ge total_high (t.total + length pkt) fits')

free-IsTxQueues :
    (t u : TxQueues) (key : TxKey) (n : ℕ) (o : Option Queue.Queue)
    → lookup key t.queues ≡ o
    → IsTxQueues t
    → free t key n o ≡ some u
    → IsTxQueues u
unfolding free
free-IsTxQueues t u key n none at ok e = let q : t ≡ u = cc in subst IsTxQueues q ok
free-IsTxQueues t u key n (some q) at ok e =
    let ((q1, freed1), done1, e1) = >>=-eq-some (Queue.done q n) _ e in
    let (k, small) = All-lookup IsEntry key q t.queues ok.queues at in
    let (q2, freed2, done2, kept, k2, bytes) = done_lem q n k (done_ok q q1 n freed1 done1) in
    let q_eq : q2 ≡ q1 = cc in
    let freed_eq : freed2 ≡ freed1 = cc in
    let le : weigh? bytes_of (lookup key t.queues) ≤ weigh bytes_of t.queues =
      weigh-lookup_le bytes_of key t.queues in
    let here : (or_new (lookup key t.queues)).bytes ≡ q.bytes = ap (λ o. (or_new o).bytes) at in
    let here' : weigh? bytes_of (lookup key t.queues) ≡ q.bytes = ap (weigh? bytes_of) at in
    let result : record t { queues = put key q2 t.queues; total = t.total - freed2 } ≡ u = cc in
    subst IsTxQueues result (
      put-IsTxQueues t key q2 (t.total - freed2) ok (k2, omega (arith, bytes, small))
        (omega (arith, here, here', le, bytes, ok.counted)) (omega (arith, ok.bounded)))

resumption_pass-IsTxQueues :
    (t : TxQueues) (key : Option TxKey) → IsTxQueues t → IsTxQueues (resumption_pass t key)
unfolding resumption_pass
resumption_pass-IsTxQueues t key ok = record {
  queues = ok.queues;
  counted = ok.counted;
  bounded = ok.bounded;
}

done-IsTxQueues :
    (t u : TxQueues) (key : TxKey) (n : ℕ) → IsTxQueues t → done t key n ≡ some u → IsTxQueues u
unfolding done
done-IsTxQueues t u key n ok e =
    let (t', freed, e') = >>=-eq-some (free t key n (lookup key t.queues)) _ e in
    let q : resumption_pass t' (some key) ≡ u = cc in
    subst IsTxQueues q (
      resumption_pass-IsTxQueues t' (some key)
        (free-IsTxQueues t t' key n (lookup key t.queues) refl ok freed))

drop_queues_lem :
    (conn : ℕ) (qs : List (TxKey × Queue.Queue)) (bytes : ℕ)
    → All IsEntry qs
    → weigh bytes_of qs ≤ bytes
    → All IsEntry (drop_queues conn qs bytes).0
      × ((drop_queues conn qs bytes).1 + weigh bytes_of qs
          ≡ bytes + weigh bytes_of (drop_queues conn qs bytes).0)
      × ((drop_queues conn qs bytes).1 ≤ bytes)
unfolding drop_queues weigh
drop_queues_lem conn [] bytes all h = (tt, refl, omega arith)
drop_queues_lem conn ((k, q) ∷ qs) bytes all h = elim (Bool-cases (is_conn k.conn conn)) [
  | inl hit ↦
      let (kept, sums, le) = drop_queues_lem conn qs (bytes - q.bytes) all.1 (omega (arith, h)) in
      rw hit (kept, omega (arith, sums, h), omega (arith, le))
  | inr miss ↦
      let (kept, sums, le) = drop_queues_lem conn qs bytes all.1 (omega (arith, h)) in
      rw miss ((all.0, kept), omega (arith, sums), le)
]

drop_conn-IsTxQueues : (t : TxQueues) (conn : ℕ) → IsTxQueues t → IsTxQueues (drop_conn t conn)
unfolding drop_conn
drop_conn-IsTxQueues t conn ok =
    let (kept, sums, le) =
      drop_queues_lem conn t.queues t.total ok.queues (omega (arith, ok.counted)) in
    resumption_pass-IsTxQueues _ none (record {
      queues = kept;
      counted = omega (arith, sums, ok.counted);
      bounded = omega (arith, le, ok.bounded);
    })

-- What the engine does with the queues, one call after another. A `done` that panics is no step.
pub data Step (t u : TxQueues) : Type 0 where
  pushed :
      (capacity : ℕ) (key : TxKey) (dst : ℕ) (pkt : List ℕ)
      → u ≡ (push capacity t key dst pkt).0
      → Step t u
  waits : (conn : ℕ) (key : TxKey) (why : Refusal) → u ≡ record_blocked t conn key why → Step t u
  sent : (key : TxKey) (datagrams : ℕ) → done t key datagrams ≡ some u → Step t u
  closed : (conn : ℕ) → u ≡ drop_conn t conn → Step t u
  resumed : u ≡ (take_resumable t).0 → Step t u

pub data Reach : TxQueues → Type 0 where
  start : Reach empty
  next : {t u : TxQueues} → Reach t → Step t u → Reach u

Step-IsTxQueues : (t u : TxQueues) → Step t u → IsTxQueues t → IsTxQueues u
unfolding record_blocked
Step-IsTxQueues t u (pushed capacity key dst pkt e) ok =
    subst IsTxQueues (sym e) (push-IsTxQueues capacity t key dst pkt ok)
Step-IsTxQueues t u (waits conn key why e) ok =
    subst IsTxQueues (sym e)
      (record { queues = ok.queues; counted = ok.counted; bounded = ok.bounded })
Step-IsTxQueues t u (sent key datagrams e) ok = done-IsTxQueues t u key datagrams ok e
Step-IsTxQueues t u (closed conn e) ok = subst IsTxQueues (sym e) (drop_conn-IsTxQueues t conn ok)
Step-IsTxQueues t u (resumed e) ok =
    subst IsTxQueues (sym e)
      (record { queues = ok.queues; counted = ok.counted; bounded = ok.bounded })

-- However the calls follow one another, each queue is in order and has at most 1 MiB, the total is the
-- sum of the queues' bytes, and it is at most 4 MiB.
pub Reach-IsTxQueues : {t : TxQueues} → Reach t → IsTxQueues t
Reach-IsTxQueues start = empty-IsTxQueues
Reach-IsTxQueues (next {t} {u} r st) = Step-IsTxQueues t u st (Reach-IsTxQueues r)
