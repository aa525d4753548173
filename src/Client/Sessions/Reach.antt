-- ===== src/Client/Sessions/Reach.antt =====
-- What holds of the client's sessions whatever happened (crates/mq-proxy/src/client/udp_session.rs).
use mqproxy.Prelude.{
  ℕ, List, [], ◌∷◌, Bool, true, false, Option, none, some, ◌==◌, ==_iff, ◌≡◌, ◌≢◌, ◌⊎◌, refl, sym,
  ap, subst, ◌∙◌, inl, inr,
}
use mqproxy.Prelude.Maps.{Key, nat_key, lookup, put, erase, lookup-erase_self, lookup-erase_ne}
use mqproxy.Prelude.MapKeys.{keys, lookup-has}
use mqproxy.Prelude.Sets.{has}
use mqproxy.Prelude.Sorted.{sorted, has-sorted}
use mqproxy.Client.UdpAssoc.{Assoc}
use mqproxy.Client.Sessions.{
  Session, SessionEnd, closed, Client, new_session, end_found, end_session, end_each, sessions_of,
  end_found_assoc, end_assoc, udp_conn_gone, insert_session, attach_found, attach_stream,
  session_at, stream_session,
}
use mqproxy.Client.Sessions.Laws.{
  Holds, IsMirrored, none-ne-some, same_or_not, erase-IsMirrored, insert-IsMirrored,
  attach-IsMirrored,
}

module _ {T A I : Type 0} ⦃target_key : Key T⦄ where
  abbrev pub IsClient : Client T A I → Type 0
  IsClient c = IsMirrored c.by_sid c.by_stream

  -- A new session under an id that is not in use; a new stream for a session that has none; an end; the end of
  -- an association; the end of the connection.
  pub data Step : Client T A I → Client T A I → Type 0 where
    opens :
        {c : Client T A I} (sid tcp : ℕ) (target : T) (tx : List ℕ)
        → lookup sid c.by_sid ≡ none
        → Step c (insert_session c sid (new_session tcp target tx))
    issues :
        {c c' : Client T A I} (sid st : ℕ) (s : Session T)
        → lookup sid c.by_sid ≡ some s
        → s.stream ≡ none
        → lookup st c.by_stream ≡ none
        → attach_stream c sid st ≡ some c'
        → Step c c'
    ends :
        {c : Client T A I} (now sid : ℕ) (why : SessionEnd) (live : Bool)
        → Step c (end_session c now sid why live)
    ends_assoc : {c : Client T A I} (now tcp : ℕ) → Step c (end_assoc c now tcp)
    loses_conn : {c : Client T A I} (now : ℕ) → Step c (udp_conn_gone c now)

  abbrev pub no_sessions : List (ℕ × Assoc T A I) → Client T A I
  no_sessions assocs = record { by_sid = []; by_stream = []; assocs = assocs; log = [] }

  pub data Reach : Client T A I → Type 0 where
    start : (assocs : List (ℕ × Assoc T A I)) → Reach (no_sessions assocs)
    next : {c c' : Client T A I} → Reach c → Step c c' → Reach c'

  end_session-IsClient :
      (c : Client T A I) (now sid : ℕ) (why : SessionEnd) (live : Bool)
      → IsClient c
      → IsClient (end_session c now sid why live)
  unfolding end_session
  end_session-IsClient c now sid why live v = by_lookup (lookup sid c.by_sid) refl
    where
      by_lookup :
          (o : Option (Session T))
          → lookup sid c.by_sid ≡ o
          → IsClient (end_found c now sid why live o)
      by_lookup none e = v
      by_lookup (some s) e = erase-IsMirrored c.by_sid c.by_stream sid s s.stream v e refl

  end_each-IsClient :
      (c : Client T A I) (now : ℕ) (sids : List ℕ) (live : Bool)
      → IsClient c
      → IsClient (end_each c now sids live)
  unfolding end_each
  end_each-IsClient c now [] live v = v
  end_each-IsClient c now (sid ∷ sids) live v =
      end_each-IsClient (end_session c now sid closed live) now sids live
        (end_session-IsClient c now sid closed live v)

  Step-IsClient : {c c' : Client T A I} → Step c c' → IsClient c → IsClient c'
  unfolding insert_session attach_stream end_assoc udp_conn_gone
  Step-IsClient {c} {c'} (opens sid tcp target tx fresh) v =
      insert-IsMirrored c.by_sid c.by_stream sid (new_session tcp target tx) v fresh refl
  Step-IsClient {c} {c'} (issues sid st s at idle fresh e) v =
      let e' : attach_found c sid st (some s) ≡ some c' = sym (ap (attach_found c sid st) at) ∙ e in
      let same : record c {
        by_sid = put sid (record s { stream = some st }) c.by_sid;
        by_stream = put st sid c.by_stream;
      }
          ≡ c' =
        cc in
      subst IsClient same (
        attach-IsMirrored c.by_sid c.by_stream sid st s (record s { stream = some st }) v at idle
          fresh refl)
  Step-IsClient {c} {c'} (ends now sid why live) v = end_session-IsClient c now sid why live v
  Step-IsClient {c} {c'} (ends_assoc now tcp) v = by_assoc (lookup tcp c.assocs)
    where
      by_assoc : (o : Option (Assoc T A I)) → IsClient (end_found_assoc c now tcp o)
      by_assoc none = v
      by_assoc (some a) = end_each-IsClient _ now (sessions_of a.dsts) true v
  Step-IsClient {c} {c'} (loses_conn now) v =
      end_each-IsClient c now (sorted (keys c.by_sid)) false v

  Reach-IsClient : (c : Client T A I) → Reach c → IsClient c
  unfolding lookup
  Reach-IsClient _ (start assocs) = record {
    live = λ st sid e. absurd (none-ne-some sid e);
    back = λ sid st s e q. absurd (none-ne-some s e);
  }
  Reach-IsClient _ (next r s) = Step-IsClient s (Reach-IsClient _ r)

  -- However sessions are opened, issued and ended, one by one, with their association or with the connection, an event on a stream that the table
  -- of streams has finds its session, and that session has this stream: the look-ups do not panic.
  pub stream_session_found :
      (c : Client T A I) (st sid : ℕ)
      → Reach c
      → lookup st c.by_stream ≡ some sid
      → (s : Session T) × (stream_session c st ≡ some s) × (s.stream ≡ some st)
  unfolding stream_session
  stream_session_found c st sid r e =
      let (s, at, held) = by_held (lookup sid c.by_sid) refl ((Reach-IsClient c r).live st sid e) in
      (s, ap (session_at c) e ∙ at, held)
    where
      by_held :
          (o : Option (Session T))
          → lookup sid c.by_sid ≡ o
          → Holds st o
          → (s : Session T) × (lookup sid c.by_sid ≡ some s) × (s.stream ≡ some st)
      by_held none q h = absurd h
      by_held (some s) q h = (s, q, h)

  -- An end removes the session, and brings none back.
  end_session-lookup :
      (c : Client T A I) (now sid x : ℕ) (why : SessionEnd) (live : Bool)
      → (sid ≡ x) ⊎ (lookup x c.by_sid ≡ none)
      → lookup x (end_session c now sid why live).by_sid ≡ none
  unfolding end_session
  end_session-lookup c now sid x why live h = by_lookup (lookup sid c.by_sid) refl h
    where
      by_lookup :
          (o : Option (Session T))
          → lookup sid c.by_sid ≡ o
          → (sid ≡ x) ⊎ (lookup x c.by_sid ≡ none)
          → lookup x (end_found c now sid why live o).by_sid ≡ none
      by_lookup none e (inl same) = ap (λ y. lookup y c.by_sid) (sym same) ∙ e
      by_lookup none e (inr gone) = gone
      by_lookup (some s) e (inl same) =
          ap (λ y. lookup y (erase sid c.by_sid)) (sym same) ∙ lookup-erase_self sid c.by_sid
      by_lookup (some s) e (inr gone) = elim (same_or_not sid x) [
        | inl same ↦
            ap (λ y. lookup y (erase sid c.by_sid)) (sym same) ∙ lookup-erase_self sid c.by_sid
        | inr ne ↦ lookup-erase_ne sid x c.by_sid ne ∙ gone
      ]

  end_each-lookup :
      (c : Client T A I) (now x : ℕ) (sids : List ℕ) (live : Bool)
      → (has x sids ≡ true) ⊎ (lookup x c.by_sid ≡ none)
      → lookup x (end_each c now sids live).by_sid ≡ none
  unfolding end_each has
  end_each-lookup c now x [] live (inl h) = cc
  end_each-lookup c now x [] live (inr gone) = gone
  end_each-lookup c now x (sid ∷ sids) live h =
      end_each-lookup (end_session c now sid closed live) now x sids live
        (by_id (same_or_not sid x) h)
    where
      by_id :
          (sid ≡ x) ⊎ (sid ≢ x)
          → (has x (sid ∷ sids) ≡ true) ⊎ (lookup x c.by_sid ≡ none)
          → (has x sids ≡ true) ⊎ (lookup x (end_session c now sid closed live).by_sid ≡ none)
      by_id (inl same) h = inr (end_session-lookup c now sid x closed live (inl same))
      by_id (inr ne) (inr gone) = inr (end_session-lookup c now sid x closed live (inr gone))
      by_id (inr ne) (inl h) = inl (has_rest (sid == x) refl)
        where
          has_rest : (b : Bool) → (sid == x) ≡ b → has x sids ≡ true
          has_rest true q = absurd (ne ((==_iff sid x).0 q))
          has_rest false q = rw q at h

  udp_conn_gone-lookup :
      (c : Client T A I) (now x : ℕ) → lookup x (udp_conn_gone c now).by_sid ≡ none
  unfolding udp_conn_gone
  udp_conn_gone-lookup c now x =
      end_each-lookup c now x (sorted (keys c.by_sid)) false (known (lookup x c.by_sid) refl)
    where
      known :
          (o : Option (Session T))
          → lookup x c.by_sid ≡ o
          → (has x (sorted (keys c.by_sid)) ≡ true) ⊎ (lookup x c.by_sid ≡ none)
      known none e = inr e
      known (some s) e = inl (has-sorted x (keys c.by_sid) (lookup-has x s c.by_sid e))

  -- Once the connection is lost, no session is left, and no stream leads to one.
  pub udp_conn_gone_lem :
      (c : Client T A I) (now sid st : ℕ)
      → Reach c
      → (lookup sid (udp_conn_gone c now).by_sid ≡ none)
        × (lookup st (udp_conn_gone c now).by_stream ≡ none)
  udp_conn_gone_lem c now sid st r =
      (gone sid, by_stream (lookup st (udp_conn_gone c now).by_stream) refl)
    where
      gone : (x : ℕ) → lookup x (udp_conn_gone c now).by_sid ≡ none
      gone x = udp_conn_gone-lookup c now x

      by_stream :
          (o : Option ℕ)
          → lookup st (udp_conn_gone c now).by_stream ≡ o
          → lookup st (udp_conn_gone c now).by_stream ≡ none
      by_stream none e = e
      by_stream (some x) e =
          let v = Reach-IsClient (udp_conn_gone c now) (next r (loses_conn now)) in
          absurd (subst (Holds st) (gone x) (v.live st x e))
