-- ===== src/Transport/TxQueues/Resume.antt =====
-- No connection is forgotten by the resumption of crates/mq-transport/src/txq.rs.
use mqproxy.Prelude.{
  ℕ, ◌≡◌, refl, sym, ap, ◌∙◌, List, [], ◌∷◌, ◌++◌, Bool, true, false, ◌||◌, Option, none, some,
  ◌==◌, ==_iff, subst, All, Bool-cases, inl, inr, arith,
}
use mqproxy.Prelude.Options.{>>=-eq-some}
use mqproxy.Prelude.Maps.{lookup}
use mqproxy.Transport.TxQueues.Queue
use mqproxy.Transport.TxQueues.{
  TxKey, tx_key, Blocked, TxQueues, contains_conn, add_once, is_ready, resume_loop, resumption_pass,
  free, done,
}

unfoldable pub is_blocked : List (ℕ × Blocked) → ℕ → Bool
is_blocked [] c = false
is_blocked ((b, r) ∷ bs) c = (b == c) || is_blocked bs c

-- Blocked, or about to be resumed.
abbrev pub is_known : TxQueues → ℕ → Bool
is_known t c = is_blocked t.blocked c || contains_conn t.resumable c

contains_conn-append :
    (bs : List ℕ) (b c : ℕ) → contains_conn (bs ++ (b ∷ [])) c ≡ contains_conn bs c || (b == c)
unfolding contains_conn
contains_conn-append [] b c = ground arith
contains_conn-append (a ∷ bs) b c = ground (arith, contains_conn-append bs b c)

contains_conn-add_once :
    (bs : List ℕ) (b c : ℕ) → contains_conn (add_once bs b) c ≡ contains_conn bs c || (b == c)
contains_conn-add_once bs b c = elim (Bool-cases (contains_conn bs b)) [
  | inl there ↦ elim (Bool-cases (b == c)) [
    | inl same ↦
        let e : b ≡ c = (==_iff b c).0 same in
        let there' : contains_conn bs c ≡ true = ap (contains_conn bs) (sym e) ∙ there in
        rw (there, there') refl
    | inr other ↦ rw (there, other) (ground arith)
  ]
  | inr absent ↦ rw absent (contains_conn-append bs b c)
]

or_assoc : (a b c : Bool) → ((a || b) || c) ≡ (a || (b || c))
or_assoc true b c = refl
or_assoc false b c = refl

swap_or : (a b c : Bool) → (a || (b || c)) ≡ ((c || a) || b)
swap_or a b c = ground arith

resume_loop_lem :
    (t : TxQueues) (key : Option TxKey) (bs : List (ℕ × Blocked)) (resumable : List ℕ) (c : ℕ)
    → ((is_blocked (resume_loop t key bs resumable).0 c
          || contains_conn (resume_loop t key bs resumable).1 c)
        ≡ (is_blocked bs c || contains_conn resumable c))
      × All (λ e. is_ready t key e.1 ≡ false) (resume_loop t key bs resumable).0
unfolding resume_loop is_blocked
resume_loop_lem t key [] resumable c = (refl, tt)
resume_loop_lem t key ((b, r) ∷ bs) resumable c = elim (Bool-cases (is_ready t key r)) [
  | inl ready ↦
      let (same, none_left) = resume_loop_lem t key bs (add_once resumable b) c in
      rw ready (
        same
            ∙ ap (◌||◌ (is_blocked bs c)) (contains_conn-add_once resumable b c)
            ∙ swap_or (is_blocked bs c) (contains_conn resumable c) (b == c),
        none_left,
      )
  | inr waits ↦
      let (same, none_left) = resume_loop_lem t key bs resumable c in
      rw waits (
        or_assoc (b == c) _ _ ∙ ap (◌||◌ (b == c)) same ∙ sym (or_assoc (b == c) _ _),
        (waits, none_left),
      )
]

free_keeps :
    (t u : TxQueues) (key : TxKey) (n : ℕ) (o : Option Queue.Queue)
    → free t key n o ≡ some u
    → (u.blocked ≡ t.blocked) × (u.resumable ≡ t.resumable)
unfolding free
free_keeps t u key n none e = ground arith
free_keeps t u key n (some q) e =
    let ((q', freed), done, e') = >>=-eq-some (Queue.done q n) _ e in ground arith

-- After `done`, no connection is still blocked whose reason has cleared: the sent queue is below its low
-- mark and it waited for that queue, or the total is below its limit and it waited for that. And each
-- connection that was blocked or about to be resumed is so still; none is added.
pub done_resumes :
    (t u : TxQueues) (key : TxKey) (n c : ℕ)
    → done t key n ≡ some u
    → All (λ e. is_ready u (some key) e.1 ≡ false) u.blocked × (is_known u c ≡ is_known t c)
unfolding done resumption_pass is_ready
done_resumes t u key n c e =
    let (t', freed, e') = >>=-eq-some (free t key n (lookup key t.queues)) _ e in
    let (same, none_left) = resume_loop_lem t' (some key) t'.blocked t'.resumable c in
    let q : resumption_pass t' (some key) ≡ u = cc in
    let (blocked, resumable) = free_keeps t t' key n (lookup key t.queues) freed in
    subst
      (λ (v : TxQueues).
        All (λ e. is_ready v (some key) e.1 ≡ false) v.blocked × (is_known v c ≡ is_known t c))
      q
      (
        none_left,
        same
            ∙ ap (λ bs. is_blocked bs c || contains_conn t'.resumable c) blocked
            ∙ ap (λ rs. is_blocked t.blocked c || contains_conn rs c) resumable,
      )
