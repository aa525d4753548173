-- ===== src/Server/Accounting/Laws.antt =====
-- The counters of an origin connection count its records (crates/mq-proxy/src/server/origin/accounting.rs).
use mqproxy.Prelude.{
  ℕ, zero, suc, ◌+◌, ◌-◌, ◌≤◌, ◌<◌, ◌≡◌, ◌↔◌, refl, ap, List, [], ◌∷◌, Bool, true, false, not, ◌||◌,
  Option, none, some, if◌then◌else◌, arith, IsU32, ◌%◌, ◌^◌, All,
}
use mqproxy.Server.Accounting.{
  idle_max, ConnAccounting, a, e, keep, record_dropped, has_aged, retire_eligible, sweep_class,
  OriginReq, connecting, assigned, ended, Scan, keeping, scan, settle_records, latest, newest,
}

unfoldable pub count_assigned : List OriginReq → ℕ
count_assigned [] = 0
count_assigned (connecting ∷ reqs) = count_assigned reqs
count_assigned (assigned ∷ reqs) = suc (count_assigned reqs)
count_assigned (ended r c t ∷ reqs) = count_assigned reqs

unfoldable pub count_ended : List OriginReq → ℕ
count_ended [] = 0
count_ended (connecting ∷ reqs) = count_ended reqs
count_ended (assigned ∷ reqs) = count_ended reqs
count_ended (ended r c t ∷ reqs) = suc (count_ended reqs)

-- The records without the released ones.
unfoldable pub unreleased : List OriginReq → List OriginReq
unreleased [] = []
unreleased (connecting ∷ reqs) = connecting ∷ unreleased reqs
unreleased (assigned ∷ reqs) = assigned ∷ unreleased reqs
unreleased (ended released c t ∷ reqs) =
    let rest = unreleased reqs in if released then rest else ended released c t ∷ rest

-- What a scan from the counters `c` makes.
record Scanned (c : ConnAccounting) (reqs : List OriginReq) (s : Scan) : Type 0 where
  kept : s.reqs ≡ unreleased reqs
  active : s.acct.active + count_ended reqs ≡ c.active + count_ended (unreleased reqs)
  waiting : s.acct.ended_unreleased ≡ c.ended_unreleased + count_ended (unreleased reqs)
  completed : s.acct.completed ≡ c.completed

scan-Scanned :
    (c : ConnAccounting) (unclean : Bool) (reqs : List OriginReq)
    → count_ended reqs ≤ c.active
    → IsU32 (c.ended_unreleased + count_ended reqs)
    → (s : Scan) × (scan c unclean reqs ≡ some s) × Scanned c reqs s
unfolding scan record_dropped unreleased count_ended
scan-Scanned c unclean [] h u32 =
    (_, refl, record { kept = refl; active = refl; waiting = omega arith; completed = refl })
scan-Scanned c unclean (connecting ∷ reqs) h u32 =
    let (s, q, k) = scan-Scanned c unclean reqs h u32 in
    (
      keeping connecting s,
      rw q refl,
      record {
        kept = ap (◌∷◌ connecting) k.kept;
        active = k.active;
        waiting = k.waiting;
        completed = k.completed;
      },
    )
scan-Scanned c unclean (assigned ∷ reqs) h u32 =
    let (s, q, k) = scan-Scanned c unclean reqs h u32 in
    (
      keeping assigned s,
      rw q refl,
      record {
        kept = ap (◌∷◌ assigned) k.kept;
        active = k.active;
        waiting = k.waiting;
        completed = k.completed;
      },
    )
scan-Scanned c unclean (ended false clean t ∷ reqs) h u32 =
    let c' = record c { ended_unreleased = (c.ended_unreleased + 1) % 2 ^ 32 } in
    let (s, q, k) =
      scan-Scanned c' (unclean || not clean) reqs (omega (arith, h)) (omega (arith, u32)) in
    (
      keeping (ended false clean t) s,
      rw q refl,
      record {
        kept = ap (◌∷◌ (ended false clean t)) k.kept;
        active = omega (arith, k.active);
        waiting = omega (arith, k.waiting, u32);
        completed = k.completed;
      },
    )
scan-Scanned c unclean (ended true clean t ∷ reqs) h u32 = by_active c.active refl (λ n few.
    scan-Scanned (record c { active = n }) (unclean || not clean) reqs few (omega (arith, u32)))
  where
    by_active :
        (n : ℕ)
        → c.active ≡ n
        → ((n : ℕ)
            → count_ended reqs ≤ n
            → (s : Scan) × (scan (record c { active = n }) (unclean || not clean) reqs ≡ some s)
              × Scanned (record c { active = n }) reqs s)
        → (s : Scan) × (scan c unclean (ended true clean t ∷ reqs) ≡ some s)
          × Scanned c (ended true clean t ∷ reqs) s
    by_active zero q rest = absurd (omega (arith, h, q))
    by_active (suc n) q rest =
        let (s, out, k) = rest n (omega (arith, h, q)) in
        (
          s,
          rw (q, out) refl,
          record {
            kept = k.kept;
            active = omega (arith, k.active, q);
            waiting = k.waiting;
            completed = k.completed;
          },
        )

-- The counters are right: `active` counts the assigned and the ended records, `ended_unreleased` the ended ones.
pub record IsCounted (c : ConnAccounting) (reqs : List OriginReq) : Type 0 where
  pub active : c.active ≡ count_assigned reqs + count_ended reqs
  pub waiting : c.ended_unreleased ≡ count_ended reqs

count_assigned-unreleased :
    (reqs : List OriginReq) → count_assigned (unreleased reqs) ≡ count_assigned reqs
unfolding count_assigned unreleased
count_assigned-unreleased [] = refl
count_assigned-unreleased (connecting ∷ reqs) = count_assigned-unreleased reqs
count_assigned-unreleased (assigned ∷ reqs) = ap suc (count_assigned-unreleased reqs)
count_assigned-unreleased (ended true c t ∷ reqs) = count_assigned-unreleased reqs
count_assigned-unreleased (ended false c t ∷ reqs) = count_assigned-unreleased reqs

-- If `active`, a u32, counts the assigned and the ended records, a settling does not panic: exactly the released
-- records are dropped, and both counters are right afterwards, none having wrapped. `completed` stays as it is.
pub settle_records-IsCounted :
    (c : ConnAccounting) (reqs : List OriginReq)
    → IsU32 c.active
    → c.active ≡ count_assigned reqs + count_ended reqs
    → (s : Scan) × (settle_records c reqs ≡ some s)
      × (s.reqs ≡ unreleased reqs)
      × IsCounted s.acct s.reqs
      × (s.acct.completed ≡ c.completed)
unfolding settle_records
settle_records-IsCounted c reqs u32 h =
    let (s, q, k) =
      scan-Scanned (record c { ended_unreleased = 0 }) false reqs (omega (arith, h))
        (omega (arith, u32, h)) in
    (
      s,
      q,
      k.kept,
      rw k.kept (record {
        active = omega (arith, k.active, h, count_assigned-unreleased reqs);
        waiting = omega (arith, k.waiting);
      }),
      k.completed,
    )

-- An ended record has waited for `span`.
abbrev pub IsAged : ℕ → ℕ → OriginReq → Type 0
IsAged now span connecting = Unit {0}
IsAged now span assigned = Unit {0}
IsAged now span (ended r c since) = span ≤ now - since

abbrev AllAged : ℕ → ℕ → Option ℕ → Type 0
AllAged now span none = Unit {0}
AllAged now span (some u) = span ≤ now - u

latest-AllAged :
    (now span t : ℕ) (o : Option ℕ)
    → AllAged now span (latest t o) ↔ ((span ≤ now - t) × AllAged now span o)
latest-AllAged now span t none = (λ h. (h, tt), λ (h, u). h)
latest-AllAged now span t (some u) =
    (λ h. (omega (arith, h), omega (arith, h)), λ (h, k). omega (arith, h, k))

newest-AllAged :
    (now span : ℕ) (reqs : List OriginReq)
    → AllAged now span (newest reqs) ↔ All (IsAged now span) reqs
unfolding newest
newest-AllAged now span [] = (λ h. tt, λ h. tt)
newest-AllAged now span (connecting ∷ reqs) =
    let (f, g) = newest-AllAged now span reqs in (λ q. (tt, f q), λ (u, q). g q)
newest-AllAged now span (assigned ∷ reqs) =
    let (f, g) = newest-AllAged now span reqs in (λ q. (tt, f q), λ (u, q). g q)
newest-AllAged now span (ended r c t ∷ reqs) =
    let (f, g) = newest-AllAged now span reqs in
    let (f', g') = latest-AllAged now span t (newest reqs) in
    (λ q. (let (h, k) = f' q in (h, f k)), λ (h, k). g' (h, g k))

newest-none : (reqs : List OriginReq) → newest reqs ≡ none → count_ended reqs ≡ 0
unfolding newest count_ended
newest-none [] q = refl
newest-none (connecting ∷ reqs) q = newest-none reqs q
newest-none (assigned ∷ reqs) q = newest-none reqs q
newest-none (ended r c t ∷ reqs) q = absurd (no_latest (newest reqs) q)
  where
    no_latest : (o : Option ℕ) → latest t o ≡ none → ⊥
    no_latest none q = cc
    no_latest (some u) q = cc

retires :
    (c : ConnAccounting) (now span : ℕ) (idle : Bool) (o : Option ℕ)
    → ((if idle then a else if retire_eligible c now span o then e else keep) ≡ e) ↔ (
        (idle ≡ false)
        × (0 < c.ended_unreleased)
        × (c.active ≡ c.ended_unreleased)
        × (has_aged now span o ≡ true))
unfolding retire_eligible
retires c now span true o = (λ q. cc, λ (q, r1, r2, r3). cc)
retires c now span false o =
    (λ q. ground (arith, q), λ (i, some_ended, same, aged). ground (arith, some_ended, same, aged))

-- With right counters, the sweep retires a connection exactly when it has not been idle for 118 seconds, no request
-- is assigned to it, and it has ended records, each of which has waited for at least one sweep.
pub sweep_class_lem :
    (c : ConnAccounting) (reqs : List OriginReq) (idle_since : Option ℕ) (now sweep : ℕ)
    → IsCounted c reqs
    → (sweep_class c idle_since (newest reqs) now sweep ≡ e) ↔ (
        (has_aged now idle_max idle_since ≡ false)
        × (count_assigned reqs ≡ 0)
        × (0 < count_ended reqs)
        × All (IsAged now sweep) reqs)
unfolding sweep_class
sweep_class_lem c reqs idle_since now sweep k = by_newest (newest-AllAged now sweep reqs)
  where
    by_newest :
        (AllAged now sweep (newest reqs) ↔ All (IsAged now sweep) reqs)
        → ((if has_aged now idle_max idle_since
              then a
              else if retire_eligible c now sweep (newest reqs)
              then e
              else keep)
            ≡ e)
          ↔ ((has_aged now idle_max idle_since ≡ false)
              × (count_assigned reqs ≡ 0)
              × (0 < count_ended reqs)
              × All (IsAged now sweep) reqs)
    by_newest (f, g) =
        let (to, from) = retires c now sweep (has_aged now idle_max idle_since) (newest reqs) in
        (
          λ h.
              let (i, some_ended, same, aged) = to h in
              (
                i,
                omega (arith, k.active, k.waiting, same),
                omega (arith, k.waiting, some_ended),
                f (aged_all (newest reqs) aged),
              ),
          λ (i, no_assigned, some_ended, aged). from (
            i,
            omega (arith, k.waiting, some_ended),
            omega (arith, k.active, k.waiting, no_assigned),
            all_aged (newest reqs)
                (λ none_ended. omega (arith, some_ended, newest-none reqs none_ended)) (g aged),
          ),
        )
      where
        aged_all : (o : Option ℕ) → has_aged now sweep o ≡ true → AllAged now sweep o
        aged_all none h = tt
        aged_all (some u) h = ground (arith, h)

        all_aged :
            (o : Option ℕ) → (o ≡ none → ⊥) → AllAged now sweep o → has_aged now sweep o ≡ true
        all_aged none h k = absurd (h refl)
        all_aged (some u) h k = ground (arith, k)
