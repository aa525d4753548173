-- ===== src/Client/UdpAssoc/Laws.antt =====
-- The source lock and the destination table of crates/mq-proxy/src/client/udp_assoc.rs.
use mqproxy.Prelude.{
  ℕ, ◌≤◌, ◌≡◌, ◌≢◌, ◌⊎◌, refl, sym, ap, subst, ◌∙◌, List, [], ◌∷◌, Bool, true, false, Option, none,
  some, leb, if◌then◌else◌, length, All, arith, Bool-cases, inl, inr,
}
use mqproxy.Prelude.Maps.{Key, lookup, erase, lookup-put_self, lookup-put_ne, lookup-erase_ne}
use mqproxy.Prelude.MapKeys.{
  keys, lookup-has, length-put, length-erase_lt, Distinct-put, Distinct-erase,
}
use mqproxy.Prelude.Sets.{has, Distinct}
use mqproxy.Client.UdpAssoc.{
  max_dst_per_assoc, DstEntry, Assoc, is_free, accept_from, accept_source, find_free, fresh,
  reclaim, insert_dst,
}

contrary : true ≡ false → ⊥
contrary e = cc

module _ {T A I : Type 0} ⦃addr_key : Key A⦄ ⦃ip_key : Key I⦄ (ip_of : A → I) where
  -- The sources that are accepted, of datagrams that arrive one after the other.
  unfoldable pub accepted : Assoc T A I → List A → List A
  unfolding accept_source
  accepted a [] = []
  accepted a (from ∷ froms) =
      let (a', hit) = accept_source ip_of a from in
      let rest = accepted a' froms in if hit then from ∷ rest else rest

  accept_locked :
      (a : Assoc T A I) (l from : A)
      → a.learned ≡ some l
      → accept_source ip_of a from ≡ (a, addr_key.same l from)
  unfolding accept_source
  accept_locked a l from e = ap (λ o. accept_from ip_of a o from) e

  accept_first :
      (a : Assoc T A I) (from : A)
      → a.learned ≡ none
      → accept_source ip_of a from ≡ (
          if ip_key.same (ip_of from) a.peer_ip
          then (record a { learned = some from }, true)
          else (a, false))
  unfolding accept_source
  accept_first a from e = ap (λ o. accept_from ip_of a o from) e

  abbrev keep : List A → A → Assoc T A I × Bool → List A
  keep froms from (a', hit) = if hit then from ∷ accepted a' froms else accepted a' froms

  accepted_cons :
      (a : Assoc T A I) (from : A) (froms : List A)
      → accepted a (from ∷ froms) ≡ keep froms from (accept_source ip_of a from)
  unfolding accepted
  accepted_cons a from froms = refl

  locked :
      (a : Assoc T A I) (l : A) (froms : List A)
      → a.learned ≡ some l
      → All (λ x. x ≡ l) (accepted a froms)
  unfolding accepted
  locked a l [] e = tt
  locked a l (from ∷ froms) e =
      let q = accepted_cons a from froms ∙ ap (keep froms from) (accept_locked a l from e) in
      subst (All (λ x. x ≡ l)) (sym q) (elim (Bool-cases (addr_key.same l from)) [
        | inl hit ↦ rw hit (sym ((addr_key.same_iff l from).0 hit), locked a l froms e)
        | inr miss ↦ rw miss (locked a l froms e)
      ])

  -- Whatever datagrams arrive at an association without a source, all that are accepted come from one address,
  -- and its IP is the control connection's peer.
  pub accepted_one :
      (a : Assoc T A I) (froms : List A)
      → a.learned ≡ none
      → (accepted a froms ≡ [])
        ⊎ ((l : A) × (ip_of l ≡ a.peer_ip) × All (λ x. x ≡ l) (accepted a froms))
  unfolding accepted
  accepted_one a [] e = inl refl
  accepted_one a (from ∷ froms) e =
      let q = accepted_cons a from froms ∙ ap (keep froms from) (accept_first a from e) in
      subst (λ xs. (xs ≡ []) ⊎ ((l : A) × (ip_of l ≡ a.peer_ip) × All (λ x. x ≡ l) xs)) (sym q)
        (elim (Bool-cases (ip_key.same (ip_of from) a.peer_ip)) [
          | inl hit ↦ rw hit (
              inr (
                from,
                (ip_key.same_iff (ip_of from) a.peer_ip).0 hit,
                (refl, locked (record a { learned = some from }) from froms refl),
              ))
          | inr miss ↦ rw miss (accepted_one a froms e)
        ])

module _ {T : Type 0} ⦃target_key : Key T⦄ where
  find_free-lookup :
      (now : ℕ) (m : List (T × DstEntry)) (k : T)
      → Distinct (keys m)
      → find_free now m ≡ some k
      → (e : DstEntry) × (lookup k m ≡ some e) × (is_free now e ≡ true)
  unfolding find_free lookup Distinct
  find_free-lookup now [] k d e = cc
  find_free-lookup now ((t, x) ∷ m) k (only, d) e = elim (Bool-cases (is_free now x)) [
    | inl here ↦
        let e' : ◌≡◌ {A = Option T} (some t) (some k) = rw here at e in
        let same : t ≡ k = cc in (x, rw ((target_key.same_iff t k).1 same) refl, here)
    | inr busy ↦
        let (y, at, free) = find_free-lookup now m k d (rw busy at e) in
        elim (Bool-cases (target_key.same t k)) [
          | inl hit ↦
              let q : t ≡ k = (target_key.same_iff t k).0 hit in
              absurd (contrary (sym (ap (λ z. has z (keys m)) q ∙ lookup-has k y m at) ∙ only))
          | inr miss ↦ (y, rw miss at, free)
        ]
  ]

  find_free-none :
      (now : ℕ) (m : List (T × DstEntry))
      → find_free now m ≡ none
      → All (λ x. is_free now x.1 ≡ false) m
  unfolding find_free
  find_free-none now [] e = tt
  find_free-none now ((t, x) ∷ m) e = elim (Bool-cases (is_free now x)) [
    | inl here ↦ absurd (some_key (rw here at e))
    | inr busy ↦ (busy, find_free-none now m (rw busy at e))
  ]
    where
      some_key : ◌≡◌ {A = Option T} (some t) none → ⊥
      some_key e = cc

module _ {T A I : Type 0} ⦃target_key : Key T⦄ where
  -- At most 64 destinations, each once.
  pub record IsTable (a : Assoc T A I) : Type 0 where
    pub few : length a.dsts ≤ max_dst_per_assoc
    pub once : Distinct (keys a.dsts)

  -- What an insert did.
  abbrev pub Inserted : Assoc T A I → T → List ℕ → ℕ → Option (Assoc T A I) → Type 0
  Inserted a target bytes now none =
      (max_dst_per_assoc ≤ length a.dsts) × All (λ x. is_free now x.1 ≡ false) a.dsts
  Inserted a target bytes now (some a') =
      IsTable a'
      × (lookup target a'.dsts ≡ some (fresh bytes))
      × ((k : T) (e : DstEntry)
          → target ≢ k
          → lookup k a.dsts ≡ some e
          → is_free now e ≡ false
          → lookup k a'.dsts ≡ some e)

  -- An insert into a table in order keeps it in order. It adds the destination with no session, and no destination
  -- with a session or a live negative-cache mark is lost for it; it is refused only if all 64 are such ones.
  pub insert_dst-Inserted :
      (a : Assoc T A I) (target : T) (bytes : List ℕ) (now : ℕ)
      → IsTable a
      → Inserted a target bytes now (insert_dst a target bytes now)
  unfolding insert_dst
  insert_dst-Inserted a target bytes now v =
      elim (Bool-cases (leb max_dst_per_assoc (length a.dsts))) [
        | inr room ↦ rw room (
          record {
            few = ground (arith, length-put target (fresh bytes) a.dsts, room);
            once = Distinct-put target (fresh bytes) a.dsts v.once;
          },
          lookup-put_self target (fresh bytes) a.dsts,
          λ k e ne at busy. lookup-put_ne target (fresh bytes) k a.dsts ne ∙ at,
        )
        | inl full ↦ rw full (by_free (find_free now a.dsts) refl (ground (arith, full)))
      ]
    where
      by_free :
          (o : Option T)
          → find_free now a.dsts ≡ o
          → max_dst_per_assoc ≤ length a.dsts
          → Inserted a target bytes now (reclaim a target bytes o)
      by_free none q full = (full, find_free-none now a.dsts q)
      by_free (some key) q full =
          let (x, at_key, free) = find_free-lookup now a.dsts key v.once q in
          let rest = erase key a.dsts in
          (
            record {
              few = omega (
                arith,
                length-put target (fresh bytes) rest,
                length-erase_lt key x a.dsts at_key,
                v.few,
              );
              once = Distinct-put target (fresh bytes) rest (Distinct-erase key a.dsts v.once);
            },
            lookup-put_self target (fresh bytes) rest,
            λ k e ne at busy.
                let apart : key ≢ k = λ same.
                  (let both : ◌≡◌ {A = Option DstEntry} (some x) (some e) =
                      sym at_key ∙ ap (λ z. lookup z a.dsts) same ∙ at in
                    let one : x ≡ e = cc in
                    contrary (sym (sym (ap (is_free now) one) ∙ free) ∙ busy)) in
                lookup-put_ne target (fresh bytes) k rest ne
                ∙ lookup-erase_ne key k a.dsts apart
                ∙ at,
          )
