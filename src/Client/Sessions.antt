-- ===== src/Client/Sessions.antt =====
-- The session table of the client: how sessions of crates/mq-proxy/src/client/udp_session.rs are made, get their
-- stream, and end. The calls of `Cx` are a log; times are in microseconds.
pub mod Laws
pub mod Reach
use mqproxy.Prelude.{
  ℕ, List, [], ◌∷◌, ◌++◌, Bool, true, false, Option, none, some, if◌then◌else◌, map,
}
use mqproxy.Prelude.Maps.{Key, nat_key, lookup, put, erase}
use mqproxy.Prelude.MapKeys.{keys}
use mqproxy.Prelude.Sorted.{sorted}
use mqproxy.Udp.Defrag.{Defrag}
use mqproxy.Udp.Defrag
use mqproxy.Client.UdpAssoc
use mqproxy.Client.UdpAssoc.{Assoc, DstEntry}

pub data Phase : Type 0 where
  pending_auth : List (List ℕ) → Phase
  await_resp : ℕ → List ℕ → Phase
  open_phase : Phase

pub record Session (T : Type 0) : Type 0 where
  pub assoc : ℕ
  pub target : T
  pub stream : Option ℕ
  pub tx : List ℕ
  pub phase : Phase
  pub defrag : Defrag
  pub packet_id : ℕ

-- The reason of an end; a refusal has the server's error.
pub data SessionEnd : Type 0 where
  closed : SessionEnd
  refused : ℕ → SessionEnd

pub data Call : Type 0 where
  cancel_timer : ℕ → Call
  stream_reset : ℕ → Call
  on_socket : UdpAssoc.Call → Call

-- The part of the client that this code changes.
pub record Client (T A I : Type 0) : Type 0 where
  pub by_sid : List (ℕ × Session T)
  pub by_stream : List (ℕ × ℕ)
  pub assocs : List (ℕ × Assoc T A I)
  pub log : List Call

abbrev pub clear_entry : ℕ → SessionEnd → DstEntry → DstEntry
clear_entry now closed e = record e { session = none }
clear_entry now (refused error) e = record e { session = none; failed_at = some now }

abbrev pub deadline_call : Phase → List Call
deadline_call (pending_auth queue) = []
deadline_call (await_resp deadline rx) = cancel_timer deadline ∷ []
deadline_call open_phase = []

abbrev pub without_stream : List (ℕ × ℕ) → Option ℕ → List (ℕ × ℕ)
without_stream by_stream none = by_stream
without_stream by_stream (some st) = erase st by_stream

abbrev pub reset_call : Bool → Option ℕ → List Call
reset_call live none = []
reset_call live (some st) = if live then stream_reset st ∷ [] else []

-- The session that `udp_outbound` inserts under its new id.
abbrev pub new_session : {T : Type 0} → ℕ → T → List ℕ → Session T
new_session tcp target tx = record {
  assoc = tcp;
  target = target;
  stream = none;
  tx = tx;
  phase = pending_auth [];
  defrag = Defrag.new;
  packet_id = 0;
}

-- The sessions of the destinations.
unfoldable pub sessions_of : {T : Type 0} → List (T × DstEntry) → List ℕ
sessions_of [] = []
sessions_of ((t, e) ∷ dsts) =
    let rest = sessions_of dsts in elim (e.session) [ none ↦ rest | some sid ↦ sid ∷ rest ]

module _ {T A I : Type 0} ⦃target_key : Key T⦄ where
  abbrev pub clear_in :
      List (ℕ × Assoc T A I)
      → ℕ
      → SessionEnd
      → Session T
      → Assoc T A I
      → Option DstEntry
      → List (ℕ × Assoc T A I)
  clear_in assocs now why s a none = assocs
  clear_in assocs now why s a (some e) =
      put s.assoc (record a { dsts = put s.target (clear_entry now why e) a.dsts }) assocs

  abbrev pub clear_dst :
      List (ℕ × Assoc T A I)
      → ℕ
      → SessionEnd
      → Session T
      → Option (Assoc T A I)
      → List (ℕ × Assoc T A I)
  clear_dst assocs now why s none = assocs
  clear_dst assocs now why s (some a) = clear_in assocs now why s a (lookup s.target a.dsts)

  abbrev pub end_found :
      Client T A I → ℕ → ℕ → SessionEnd → Bool → Option (Session T) → Client T A I
  end_found c now sid why live none = c
  end_found c now sid why live (some s) = record {
    by_sid = erase sid c.by_sid;
    by_stream = without_stream c.by_stream s.stream;
    assocs = clear_dst c.assocs now why s (lookup s.assoc c.assocs);
    log = c.log ++ (deadline_call s.phase ++ reset_call live s.stream);
  }

  unfoldable pub end_session : Client T A I → ℕ → ℕ → SessionEnd → Bool → Client T A I
  unfolding lookup put erase
  end_session c now sid why live = end_found c now sid why live (lookup sid c.by_sid)

  unfoldable pub end_each : Client T A I → ℕ → List ℕ → Bool → Client T A I
  unfolding end_session
  end_each c now [] live = c
  end_each c now (sid ∷ sids) live = end_each (end_session c now sid closed live) now sids live

  abbrev pub end_found_assoc : Client T A I → ℕ → ℕ → Option (Assoc T A I) → Client T A I
  end_found_assoc c now tcp none = c
  end_found_assoc c now tcp (some a) =
      end_each
        (record c {
          assocs = erase tcp c.assocs;
          log = c.log ++ map on_socket (UdpAssoc.release a);
        })
        now (sessions_of a.dsts) true

  unfoldable pub end_assoc : Client T A I → ℕ → ℕ → Client T A I
  unfolding end_each lookup erase UdpAssoc.release
  end_assoc c now tcp = end_found_assoc c now tcp (lookup tcp c.assocs)

  unfoldable pub udp_conn_gone : Client T A I → ℕ → Client T A I
  unfolding end_each sorted
  udp_conn_gone c now = end_each c now (sorted (keys c.by_sid)) false

  unfoldable pub insert_session : Client T A I → ℕ → Session T → Client T A I
  unfolding put
  insert_session c sid s = record c { by_sid = put sid s c.by_sid }

  -- `issue` gives a session its stream.
  abbrev pub attach_found : Client T A I → ℕ → ℕ → Option (Session T) → Option (Client T A I)
  attach_found c sid st none = none
  attach_found c sid st (some s) = some (record c {
    by_sid = put sid (record s { stream = some st }) c.by_sid;
    by_stream = put st sid c.by_stream;
  })

  -- A session that is not there is a panic.
  unfoldable pub attach_stream : Client T A I → ℕ → ℕ → Option (Client T A I)
  unfolding lookup put
  attach_stream c sid st = attach_found c sid st (lookup sid c.by_sid)

  -- The session of a stream, as `session_writable` and `session_readable` find it: a stream without a session is
  -- a panic.
  abbrev pub session_at : Client T A I → Option ℕ → Option (Session T)
  session_at c none = none
  session_at c (some sid) = lookup sid c.by_sid

  unfoldable pub stream_session : Client T A I → ℕ → Option (Session T)
  unfolding lookup
  stream_session c st = session_at c (lookup st c.by_stream)
