-- ===== src/Client/Pending/Laws.antt =====
-- The queue of crates/mq-proxy/src/client/pending.rs is bounded, and expiry loses nothing.
use mqproxy.Prelude.{
  ℕ, ◌≤◌, ◌<◌, ◌≡◌, refl, List, [], ◌∷◌, ◌++◌, Bool, true, false, Option, none, some, length, All,
  arith, Bool-cases, inl, inr, leb, length-append, ◌==◌, ==_iff, ◌≢◌,
}
use mqproxy.Client.Pending.{
  Pending, PendingOpen, push, remove, remove_from, partition, is_expired, expire, max_pending,
}

-- The two lists, each in order, make up the third.
pub data Interleaved {ℓ} {A : Type ℓ} : List A → List A → List A → Type ℓ where
  nil : Interleaved [] [] []
  left : {xs ys zs : List A} (x : A) → Interleaved xs ys zs → Interleaved (x ∷ xs) ys (x ∷ zs)
  right : {xs ys zs : List A} (y : A) → Interleaved xs ys zs → Interleaved xs (y ∷ ys) (y ∷ zs)

pub record Parted (test : PendingOpen → Bool) (gone keep q : List PendingOpen) : Type 0 where
  pub all_gone : All (λ o. test o ≡ true) gone
  pub all_kept : All (λ o. test o ≡ false) keep
  pub interleaved : Interleaved gone keep q

partition-Parted :
    (test : PendingOpen → Bool) (q : List PendingOpen)
    → Parted test (partition test q).0 (partition test q).1 q
unfolding partition
partition-Parted test [] = record { all_gone = tt; all_kept = tt; interleaved = nil }
partition-Parted test (o ∷ q) =
    let rest = partition-Parted test q in
    elim (Bool-cases (test o)) [
      | inl late ↦ rw late (record {
        all_gone = (late, rest.all_gone);
        all_kept = rest.all_kept;
        interleaved = left o rest.interleaved;
      })
      | inr early ↦ rw early (record {
        all_gone = rest.all_gone;
        all_kept = (early, rest.all_kept);
        interleaved = right o rest.interleaved;
      })
    ]

-- `expire` parts the queue by the deadline: what it gives has waited that long, what stays has not, and
-- both keep their order and make up the queue from before.
pub expire-Parted :
    (p : Pending) (now : ℕ)
    → Parted (is_expired p.deadline now) (expire p now).1 (expire p now).0.q p.q
unfolding expire
expire-Parted p now = partition-Parted (is_expired p.deadline now) p.q

-- What `remove` did: it found nothing, and the queue is as before, or it took the first request of the
-- key from where it stood.
pub data Removal (tcp : ℕ) : List PendingOpen → List PendingOpen → Option PendingOpen → Type 0 where
  absent : {q : List PendingOpen} → All (λ o. o.tcp ≢ tcp) q → Removal tcp q q none
  taken :
      (front back : List PendingOpen) (o : PendingOpen)
      → All (λ o. o.tcp ≢ tcp) front
      → o.tcp ≡ tcp
      → Removal tcp (front ++ (o ∷ back)) (front ++ back) (some o)

removal_after :
    (tcp : ℕ) (o : PendingOpen) {q q' : List PendingOpen} {found : Option PendingOpen}
    → o.tcp ≢ tcp
    → Removal tcp q q' found
    → Removal tcp (o ∷ q) (o ∷ q') found
removal_after tcp o ne (absent others) = absent (ne, others)
removal_after tcp o ne (taken front back x others same) = taken (o ∷ front) back x (ne, others) same

remove_from-Removal :
    (q : List PendingOpen) (tcp : ℕ) → Removal tcp q (remove_from q tcp).0 (remove_from q tcp).1
unfolding remove_from
remove_from-Removal [] tcp = absent tt
remove_from-Removal (o ∷ q) tcp = elim (Bool-cases (o.tcp == tcp)) [
  | inl hit ↦ rw hit (taken [] q o tt ((==_iff o.tcp tcp).0 hit))
  | inr miss ↦
      rw miss
        (removal_after tcp o (λ e. cc (miss, (==_iff o.tcp tcp).1 e)) (remove_from-Removal q tcp))
]

-- `remove` takes the first request of the socket, and only it, out of the queue; if the socket has none,
-- the queue is as before.
pub remove-Removal : (p : Pending) (tcp : ℕ) → Removal tcp p.q (remove p tcp).0.q (remove p tcp).1
unfolding remove
remove-Removal p tcp = remove_from-Removal p.q tcp

-- `push` refuses exactly when the queue is full. A queue within its bound stays within it, and the new
-- request is the last.
pub push_lem :
    (p : Pending) (waiting : PendingOpen)
    → length p.q ≤ max_pending
    → (length p.q ≡ max_pending → push p waiting ≡ none)
      × (length p.q < max_pending
          → (p' : Pending) × (push p waiting ≡ some p')
            × (p'.q ≡ p.q ++ (waiting ∷ []))
            × (length p'.q ≤ max_pending))
unfolding push
push_lem p waiting h = (
  λ full. let t : leb 256 (length p.q) ≡ true = ground (arith, full) in rw t refl,
  λ room.
      let t : leb 256 (length p.q) ≡ false = ground (arith, room) in
      (
        record p { q = p.q ++ (waiting ∷ []) },
        rw t refl,
        refl,
        omega (arith, room, length-append p.q (waiting ∷ [])),
      ),
)
