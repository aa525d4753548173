-- ===== src/Client/Paths/Sockets.antt =====
-- What crates/mq-proxy/src/client/paths.rs opened is used or given back.
use mqproxy.Prelude.{
  ℕ, ◌≡◌, refl, sym, ap, ◌∙◌, List, [], ◌∷◌, ◌++◌, Bool, false, Option, none, some, length, map,
  Bool-cases, inl, inr, ◌⊎◌, append_assoc, append-nil,
}
use mqproxy.Ingress.Request.{IpAddr}
use mqproxy.Client.Backoff.{Backoff, reset, next_delay}
use mqproxy.Client.Paths.{
  Cand, socket_ready, active, Slot, Paths, Call, close_udp_socket, add_path, set_timer, Added, up,
  no_path_id, failed, Cx, initial, call, start_retry, after_add, add, at_first, is_opening, opened,
  on_udp_socket, owns, owns_loop, releases, close_loop, on_conn_closed, or_disposed,
}

unfoldable pub all_releases : List Slot → List Call
all_releases [] = []
all_releases (s ∷ ss) = releases s.st ++ all_releases ss

-- A slot of a fresh connection.
abbrev pub restarted : Slot → Slot
restarted s = record s { st = initial s.ip; backoff = reset s.backoff }

close_loop_lem :
    (ss : List Slot) (cx : Cx)
    → ((close_loop ss cx).0 ≡ map restarted ss)
      × ((close_loop ss cx).1.log ≡ cx.log ++ all_releases ss)
unfolding close_loop all_releases
close_loop_lem [] cx = (refl, sym (append-nil cx.log))
close_loop_lem (s ∷ ss) cx =
    let (slots, log) = close_loop_lem ss (record cx { log = cx.log ++ releases s.st }) in
    (ap (◌∷◌ (restarted s)) slots, log ∙ append_assoc cx.log (releases s.st) (all_releases ss))

not_opening :
    (ip : Option IpAddr) (b : Backoff) (op : ℕ)
    → is_opening op (record { ip = ip; st = initial ip; backoff = b }) ≡ false
not_opening none b op = refl
not_opening (some ip) b op = refl

owns_restarted : (ss : List Slot) (op : ℕ) → owns_loop (map restarted ss) op ≡ false
unfolding owns_loop
owns_restarted [] op = refl
owns_restarted (s ∷ ss) op = rw (not_opening s.ip (reset s.backoff) op) (owns_restarted ss op)

-- A closed connection leaves every candidate as for a fresh one, so that no operation is owned, and gives back,
-- slot by slot, exactly what was open: an opening is cancelled, a ready socket closed, a timer cancelled.
pub on_conn_closed_lem :
    (p : Paths) (cx : Cx) (op : ℕ)
    → let (p', cx') = on_conn_closed p cx in
      (p'.slots ≡ map restarted p.slots)
      × (owns p' op ≡ false)
      × (cx'.log ≡ cx.log ++ all_releases p.slots)
unfolding on_conn_closed
on_conn_closed_lem p cx op =
    let (slots, log) = close_loop_lem p.slots cx in
    (slots, ap (λ ss. owns_loop ss op) slots ∙ owns_restarted p.slots op, log)

abbrev pub Called : Call → List Call → Type 0
Called c [] = ⊥
Called c (d ∷ ds) = (d ≡ c) ⊎ Called c ds

abbrev pub HasState : Cand → List Slot → Type 0
HasState st [] = ⊥
HasState st (s ∷ ss) = (s.st ≡ st) ⊎ HasState st ss

-- What became of a socket by a step from one log to a longer one.
pub data Fate (sock : ℕ) (ss : List Slot) (before after : List Call) : Type 0 where
  closed :
      (calls : List Call)
      → after ≡ before ++ calls
      → Called (close_udp_socket sock) calls
      → Fate sock ss before after
  held : HasState (socket_ready sock) ss → Fate sock ss before after
  joined :
      (path conn : ℕ) (standby : Bool)
      → HasState (active path) ss
      → after ≡ before ++ (add_path conn sock standby ∷ [])
      → Fate sock ss before after

-- The same with more slots in front.
Fate-cons :
    (sock : ℕ) (s : Slot) (ss : List Slot) (before after : List Call)
    → Fate sock ss before after
    → Fate sock (s ∷ ss) before after
Fate-cons sock s ss before after (closed calls e c) = closed calls e c
Fate-cons sock s ss before after (held h) = held (inr h)
Fate-cons sock s ss before after (joined path conn standby h e) = joined path conn standby (inr h) e

abbrev delay_of : Cx → Slot → ℕ
delay_of cx s = (next_delay s.backoff cx.now (cx.rnd (length cx.log))).1

start_retry-log :
    (cx : Cx) (s : Slot)
    → (start_retry cx s).1.log ≡ cx.log ++ (set_timer (delay_of cx s) cx.ids ∷ [])
unfolding start_retry
start_retry-log cx s = refl

three :
    (l : List Call) (a b c : Call)
    → ((l ++ (a ∷ [])) ++ (b ∷ [])) ++ (c ∷ []) ≡ l ++ (a ∷ b ∷ c ∷ [])
three l a b c =
    append_assoc (l ++ (a ∷ [])) (b ∷ []) (c ∷ []) ∙ append_assoc l (a ∷ []) (b ∷ c ∷ [])

after_add-Fate :
    (a : Added) (cx : Cx) (conn : ℕ) (standby : Bool) (s : Slot) (sock : ℕ) (ss : List Slot)
    → let r = after_add a (call cx (add_path conn sock standby)) s sock in
      Fate sock (r.0 ∷ ss) cx.log r.1.log
unfolding after_add
after_add-Fate (up p) cx conn standby s sock ss = joined p conn standby (inl refl) refl
after_add-Fate no_path_id cx conn standby s sock ss = held (inl refl)
after_add-Fate failed cx conn standby s sock ss =
    let tried = call (call cx (add_path conn sock standby)) (close_udp_socket sock) in
    let timer = set_timer (delay_of tried s) cx.ids in
    closed (add_path conn sock standby ∷ close_udp_socket sock ∷ timer ∷ [])
      (start_retry-log tried s
        ∙ three cx.log (add_path conn sock standby) (close_udp_socket sock) timer)
      (inr (inl refl))

opened-Fate :
    (sock : ℕ) (conn : Option ℕ) (standby : Bool) (s : Slot) (cx : Cx) (ss : List Slot)
    → let r = opened (some sock) conn standby s cx in Fate sock (r.0 ∷ ss) cx.log r.1.log
unfolding opened add
opened-Fate sock (some conn) standby s cx ss =
    after_add-Fate (cx.answer (length cx.log)) cx conn standby s sock ss
opened-Fate sock none standby s cx ss = closed (close_udp_socket sock ∷ []) refl (inl refl)

abbrev FateOr : ℕ → List Call → Option (List Slot × Cx) → Type 0
FateOr sock before none = Unit {0}
FateOr sock before (some (ss, cx)) = Fate sock ss before cx.log

at_first-FateOr :
    (op sock : ℕ) (conn : Option ℕ) (standby : Bool) (ss : List Slot) (cx : Cx)
    → FateOr sock cx.log (at_first (is_opening op) (opened (some sock) conn standby) ss cx)
unfolding at_first
at_first-FateOr op sock conn standby [] cx = tt
at_first-FateOr op sock conn standby (s ∷ ss) cx = elim (Bool-cases (is_opening op s)) [
  | inl hit ↦ rw hit (opened-Fate sock conn standby s cx ss)
  | inr miss ↦ rw miss (later _ (at_first-FateOr op sock conn standby ss cx))
]
  where
    later :
        (r : Option (List Slot × Cx))
        → FateOr sock cx.log r
        → FateOr sock cx.log (elim r [ none ↦ none | some (ss', cx') ↦ some (s ∷ ss', cx') ])
    later none f = tt
    later (some (ss', cx')) f = Fate-cons sock s ss' cx.log cx'.log f

-- A socket that the runtime opened is not lost, whichever candidate waited for it or none, and whether or not
-- a connection is live: it is closed, it is held as ready, or it carries a path of an active candidate.
pub on_udp_socket-Fate :
    (p : Paths) (cx : Cx) (conn : Option ℕ) (op sock : ℕ)
    → let (p', cx') = on_udp_socket p cx conn op (some sock) in Fate sock p'.slots cx.log cx'.log
unfolding on_udp_socket
on_udp_socket-Fate p cx conn op sock = by_slot _ (at_first-FateOr op sock conn p.standby p.slots cx)
  where
    by_slot :
        (o : Option (List Slot × Cx))
        → FateOr sock cx.log o
        → let (p', cx') = or_disposed p cx (some sock) o in Fate sock p'.slots cx.log cx'.log
    by_slot none f = closed (close_udp_socket sock ∷ []) refl (inl refl)
    by_slot (some (ss, cx')) f = f
