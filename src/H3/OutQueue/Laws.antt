-- ===== src/H3/OutQueue/Laws.antt =====
-- What the queue of crates/mq-h3/src/queue.rs keeps and delivers, over any sequence of operations.
use mqproxy.Prelude.{
  ◌≡◌, refl, sym, ap, ◌∙◌, List, [], ◌∷◌, ◌++◌, Bool, true, false, ◌||◌, Option, none, some,
  if◌then◌else◌, Bool-cases, inl, inr, append_assoc, append-nil, if_elim, arith,
}
use mqproxy.Prelude.Sets.{
  has, remove, Distinct, has-remove_self, has-remove_ne, has-append_last, Distinct-append_last,
}
use mqproxy.Transport.Event.{Event}
use mqproxy.H3.OutQueue.{
  Flag, flag_key, OutQueue, default, level, is_close, push_as, push, unflag, pop_loop, pop,
}

abbrev pub opt_cons {ℓ} : {A : Type ℓ} → Option A → List A → List A
opt_cons none l = l
opt_cons (some a) l = a ∷ l

unfoldable pub levels : List Event → List Flag
levels [] = []
levels (e ∷ es) = opt_cons (level e) (levels es)

-- The flags are those of the queued level events, and no level event is queued twice.
pub record IsOutQueue (o : OutQueue) : Type 0 where
  pub flagged : (f : Flag) → has f o.flags ≡ has f (levels o.q)
  pub once : Distinct (levels o.q)

opt_cons-append {ℓ} :
    {A : Type ℓ} (o : Option A) (xs ys : List A) → opt_cons o (xs ++ ys) ≡ opt_cons o xs ++ ys
opt_cons-append none xs ys = refl
opt_cons-append (some a) xs ys = refl

levels-append_last :
    (es : List Event) (e : Event) → levels (es ++ (e ∷ [])) ≡ levels es ++ opt_cons (level e) []
unfolding levels
levels-append_last [] e = refl
levels-append_last (d ∷ es) e =
    ap (opt_cons (level d)) (levels-append_last es e)
    ∙ opt_cons-append (level d) (levels es) (opt_cons (level e) [])

push-IsOutQueue : (o : OutQueue) (e : Event) → IsOutQueue o → IsOutQueue (push o e)
unfolding push has
push-IsOutQueue o e ok = by_level (level e) (levels-append_last o.q e)
  where
    by_level :
        (l : Option Flag)
        → levels (o.q ++ (e ∷ [])) ≡ levels o.q ++ opt_cons l []
        → IsOutQueue (push_as l o e)
    by_level none h = record {
      flagged = λ f. ok.flagged f ∙ ap (has f) (sym (h ∙ append-nil (levels o.q)));
      once = rw (h ∙ append-nil (levels o.q)) ok.once;
    }
    by_level (some f) h =
        if_elim IsOutQueue (has f o.flags) (λ queued. ok)
          (λ new. record {
            flagged = λ g.
                ap (λ b. if flag_key.same f g then true else b) (ok.flagged g)
                ∙ sym (ap (has g) h ∙ has-append_last f g (levels o.q));
            once = rw h (Distinct-append_last f (levels o.q) (sym (ok.flagged f) ∙ new) ok.once);
          })

-- The same for what is popped off the front.
tail-IsOutQueue :
    (l : Option Flag) (ls : List Flag) (flags : List Flag)
    → ((f : Flag) → has f flags ≡ has f (opt_cons l ls))
    → Distinct (opt_cons l ls)
    → ((f : Flag) → has f (unflag l flags) ≡ has f ls) × Distinct ls
unfolding has Distinct
tail-IsOutQueue none ls flags h d = (h, d)
tail-IsOutQueue (some g) ls flags h (fresh, d) = (
  λ f. elim (Bool-cases (flag_key.same g f)) [
    | inl hit ↦
        let e : g ≡ f = (flag_key.same_iff g f).0 hit in
        ap (λ k. has k (remove g flags)) (sym e)
        ∙ has-remove_self g flags
        ∙ sym fresh
        ∙ ap (λ k. has k ls) e
    | inr miss ↦ has-remove_ne g f flags miss ∙ h f ∙ ap (λ b. if b then true else has f ls) miss
  ],
  d,
)

pop_loop-IsOutQueue :
    (live : Event → Bool) (es : List Event) (flags : List Flag)
    → IsOutQueue (record { q = es; flags = flags })
    → IsOutQueue (pop_loop live es flags).0
unfolding pop_loop levels
pop_loop-IsOutQueue live [] flags ok = ok
pop_loop-IsOutQueue live (e ∷ es) flags ok =
    let (flagged, once) = tail-IsOutQueue (level e) (levels es) flags ok.flagged ok.once in
    let rest : IsOutQueue (record { q = es; flags = unflag (level e) flags }) = record {
      flagged = flagged;
      once = once;
    } in
    if_elim (λ (r : OutQueue × Option Event). IsOutQueue r.0) (is_close e || live e) (λ hit. rest)
      (λ miss. pop_loop-IsOutQueue live es (unflag (level e) flags) rest)

-- What its client does with a queue, and the events that it gets.
pub data Op : Type 0 where
  pushing : Event → Op
  popping : (Event → Bool) → Op

unfoldable pub run : OutQueue → List Op → OutQueue × List Event
unfolding push pop_loop
run o [] = (o, [])
run o (pushing e ∷ ops) = run (push o e) ops
run o (popping live ∷ ops) =
    let (o', got) = pop o live in let (o'', out) = run o' ops in (o'', opt_cons got out)

unfoldable pub pushed : List Op → List Event
pushed [] = []
pushed (pushing e ∷ ops) = e ∷ pushed ops
pushed (popping live ∷ ops) = pushed ops

run-IsOutQueue_from : (o : OutQueue) (ops : List Op) → IsOutQueue o → IsOutQueue (run o ops).0
unfolding run
run-IsOutQueue_from o [] ok = ok
run-IsOutQueue_from o (pushing e ∷ ops) ok =
    run-IsOutQueue_from (push o e) ops (push-IsOutQueue o e ok)
run-IsOutQueue_from o (popping live ∷ ops) ok =
    run-IsOutQueue_from (pop o live).0 ops (pop_loop-IsOutQueue live o.q o.flags ok)

-- Whatever is pushed and popped, the flags are those of the queued level events, so that no level event is
-- queued twice for an object and none that was delivered or dropped keeps its flag.
pub run-IsOutQueue : (ops : List Op) → IsOutQueue (run default ops).0
unfolding has levels Distinct
run-IsOutQueue ops = run-IsOutQueue_from default ops (record { flagged = λ f. refl; once = tt })

unfoldable pub closes : List Event → List Event
closes [] = []
closes (e ∷ es) = let rest = closes es in if is_close e then e ∷ rest else rest

closes-append : (xs ys : List Event) → closes (xs ++ ys) ≡ closes xs ++ closes ys
unfolding closes
closes-append [] ys = refl
closes-append (x ∷ xs) ys = elim (Bool-cases (is_close x)) [
  | inl is ↦ rw is (ap (◌∷◌ x) (closes-append xs ys))
  | inr is_not ↦ rw is_not (closes-append xs ys)
]

level_is_no_close : (e : Event) (f : Flag) → level e ≡ some f → is_close e ≡ false
unfolding level is_close
level_is_no_close e f h = ground (arith, h)

push-closes : (o : OutQueue) (e : Event) → closes (push o e).q ≡ closes o.q ++ closes (e ∷ [])
unfolding push closes
push-closes o e = by_level (level e) refl
  where
    by_level :
        (l : Option Flag) → level e ≡ l → closes (push_as l o e).q ≡ closes o.q ++ closes (e ∷ [])
    by_level none h = closes-append o.q (e ∷ [])
    by_level (some f) h =
        if_elim (λ (r : OutQueue). closes r.q ≡ closes o.q ++ closes (e ∷ [])) (has f o.flags)
          (λ queued. rw (level_is_no_close e f h) (sym (append-nil (closes o.q))))
          (λ new. closes-append o.q (e ∷ []))

pop_loop-closes :
    (live : Event → Bool) (es : List Event) (flags : List Flag)
    → let (o, got) = pop_loop live es flags in closes es ≡ closes (opt_cons got []) ++ closes o.q
unfolding pop_loop closes
pop_loop-closes live [] flags = refl
pop_loop-closes live (e ∷ es) flags = elim (Bool-cases (is_close e)) [
  | inl is ↦ rw is (rw is refl)
  | inr is_not ↦ elim (Bool-cases (live e)) [
    | inl ready ↦ rw is_not (rw ready (rw is_not refl))
    | inr stale ↦ rw is_not (rw stale (pop_loop-closes live es (unflag (level e) flags)))
  ]
]

-- No close event is lost, doubled or overtaken by another: whatever the client finds live, the close events
-- that it gets, followed by the ones still queued, are the ones queued at first, followed by the ones pushed.
pub run-closes :
    (o : OutQueue) (ops : List Op)
    → let (o', out) = run o ops in closes out ++ closes o'.q ≡ closes o.q ++ closes (pushed ops)
unfolding run pushed closes
run-closes o [] = sym (append-nil (closes o.q))
run-closes o (pushing e ∷ ops) =
    run-closes (push o e) ops
    ∙ ap (λ l. l ++ closes (pushed ops)) (push-closes o e)
    ∙ append_assoc (closes o.q) (closes (e ∷ [])) (closes (pushed ops))
    ∙ ap (λ l. closes o.q ++ l) (sym (closes-append (e ∷ []) (pushed ops)))
run-closes o (popping live ∷ ops) =
    let (o', got) = pop o live in
    let (o'', out) = run o' ops in
    ap (λ l. l ++ closes o''.q) (got_first got out)
    ∙ append_assoc (closes (opt_cons got [])) (closes out) (closes o''.q)
    ∙ ap (λ l. closes (opt_cons got []) ++ l) (run-closes o' ops)
    ∙ sym (append_assoc (closes (opt_cons got [])) (closes o'.q) (closes (pushed ops)))
    ∙ ap (λ l. l ++ closes (pushed ops)) (sym (pop_loop-closes live o.q o.flags))
  where
    got_first :
        (got : Option Event) (out : List Event)
        → closes (opt_cons got out) ≡ closes (opt_cons got []) ++ closes out
    got_first got out = ap closes (opt_cons-append got [] out) ∙ closes-append (opt_cons got []) out
