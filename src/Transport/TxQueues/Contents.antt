-- ===== src/Transport/TxQueues/Contents.antt =====
-- What each queue of crates/mq-transport/src/txq.rs holds, after a push and after a send.
use mqproxy.Prelude.{
  ℕ, ◌+◌, ◌-◌, ◌≤◌, ◌≡◌, refl, sym, ap, ◌∙◌, List, [], ◌∷◌, ◌++◌, Bool, true, false, ◌&&◌, Option,
  none, some, length, drop, ltb, if◌then◌else◌, Bool-cases, inl, inr,
}
use mqproxy.Prelude.Maps.{lookup, put, All-lookup, lookup-put_self, lookup-put_ne}
use mqproxy.Transport.TxQueues.Queue
use mqproxy.Transport.TxQueues.Queue.Laws.{append_lem, content}
use mqproxy.Transport.TxQueues.Queue.Runs.{done_lem}
use mqproxy.Transport.TxQueues.{
  TxKey, tx_key, same_key, same_key_iff, Refusal, TxQueues, or_new, push, queue_quota, total_high,
  free, done, resumption_pass,
}
use mqproxy.Transport.TxQueues.Laws.{IsTxQueues, IsEntry, or_new-IsEntry}

-- The packets that wait under a key.
abbrev pub waiting : TxQueues → TxKey → List (ℕ × List ℕ)
waiting t key = content (or_new (lookup key t.queues))

abbrev pub is_accepted : Option Refusal → Bool
is_accepted none = true
is_accepted (some r) = false

-- A replaced queue shows under its key only.
waiting-put :
    (t : TxQueues) (key j : TxKey) (q : Queue.Queue)
    → content (or_new (lookup j (put key q t.queues)))
      ≡ (if same_key key j then content q else waiting t j)
waiting-put t key j q = elim (Bool-cases (same_key key j)) [
  | inl hit ↦
      let e : key ≡ j = (same_key_iff key j).0 hit in
      rw hit (
        ap (λ o. content (or_new o))
          (ap (λ i. lookup i (put key q t.queues)) (sym e) ∙ lookup-put_self key q t.queues))
  | inr miss ↦ rw miss (
      ap (λ o. content (or_new o))
        (lookup-put_ne key q j t.queues (λ e. cc (miss, (same_key_iff key j).1 e))))
]

-- A push puts an accepted packet behind those that wait under its key; a refused one changes nothing that
-- waits, and neither does any packet under another key.
pub push_waiting :
    (capacity : ℕ) (t : TxQueues) (key j : TxKey) (dst : ℕ) (pkt : List ℕ)
    → IsTxQueues t
    → waiting (push capacity t key dst pkt).0 j ≡ (
        if is_accepted (push capacity t key dst pkt).1 && same_key key j
        then waiting t j ++ ((dst, pkt) ∷ [])
        else waiting t j)
unfolding push
push_waiting capacity t key j dst pkt ok =
    let q : Queue.Queue = or_new (lookup key t.queues) in
    elim (Bool-cases (ltb queue_quota (q.bytes + length pkt))) [
      | inl full ↦ rw full (waiting-put t key j q ∙ same_of q refl)
      | inr fits ↦ elim (Bool-cases (ltb total_high (t.total + length pkt))) [
        | inl full ↦ rw (fits, full) (waiting-put t key j q ∙ same_of q refl)
        | inr fits' ↦
            let (old, w) = or_new-IsEntry t key (lookup key t.queues) refl ok in
            let (k, e) = append_lem capacity q dst pkt old.0 in
            rw (fits, fits')
              (waiting-put t key j (Queue.append capacity q dst pkt)
                ∙ added (Queue.append capacity q dst pkt) e)
      ]
    ]
  where
    same_of :
        (q : Queue.Queue)
        → q ≡ or_new (lookup key t.queues)
        → (if same_key key j then content q else waiting t j) ≡ waiting t j
    same_of q e = elim (Bool-cases (same_key key j)) [
      | inl hit ↦
          let at : key ≡ j = (same_key_iff key j).0 hit in
          rw hit (ap content e ∙ ap (λ i. waiting t i) at)
      | inr miss ↦ rw miss refl
    ]

    added :
        (q : Queue.Queue)
        → content q ≡ waiting t key ++ ((dst, pkt) ∷ [])
        → (if same_key key j then content q else waiting t j)
          ≡ (if same_key key j then waiting t j ++ ((dst, pkt) ∷ []) else waiting t j)
    added q e = elim (Bool-cases (same_key key j)) [
      | inl hit ↦
          let at : key ≡ j = (same_key_iff key j).0 hit in
          rw hit (e ∙ ap (λ i. waiting t i ++ ((dst, pkt) ∷ [])) at)
      | inr miss ↦ rw miss refl
    ]

-- Of a key under which so many packets wait, `done` does not panic: it drops that many from the front, and
-- nothing under another key.
pub done_waiting :
    (t : TxQueues) (key : TxKey) (n : ℕ) (q : Queue.Queue)
    → IsTxQueues t
    → lookup key t.queues ≡ some q
    → n ≤ length q.pkts
    → (u : TxQueues) × (done t key n ≡ some u)
      × ((j : TxKey) → waiting u j ≡ (if same_key key j then drop n (waiting t j) else waiting t j))
unfolding done free resumption_pass
done_waiting t key n q ok at h =
    let (k, small) = All-lookup IsEntry key q t.queues ok.queues at in
    let (q', freed, e, dropped, k', bytes) = done_lem q n k h in
    let t' : TxQueues = record t { queues = put key q' t.queues; total = t.total - freed } in
    (
      resumption_pass t' (some key),
      rw at (rw e refl),
      λ j. waiting-put t key j q' ∙ cases q' j dropped,
    )
  where
    cases :
        (q' : Queue.Queue) (j : TxKey)
        → content q' ≡ drop n (content q)
        → (if same_key key j then content q' else waiting t j)
          ≡ (if same_key key j then drop n (waiting t j) else waiting t j)
    cases q' j e = elim (Bool-cases (same_key key j)) [
      | inl hit ↦
          let here : key ≡ j = (same_key_iff key j).0 hit in
          rw hit (
            e
            ∙ ap (λ o. drop n (content (or_new o))) (sym at)
            ∙ ap (λ i. drop n (waiting t i)) here)
      | inr miss ↦ rw miss refl
    ]
