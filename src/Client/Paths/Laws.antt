-- ===== src/Client/Paths/Laws.antt =====
-- The slots of crates/mq-proxy/src/client/paths.rs over any sequence of events.
use mqproxy.Prelude.{
  ℕ, suc, ◌≤◌, ◌≡◌, refl, sym, ap, ◌∙◌, subst, List, [], ◌∷◌, ◌++◌, Bool, Option, none, some,
  length, map, take, arith, All, Bool-cases, inl, inr, length-take,
}
use mqproxy.Ingress.Request.{IpAddr}
use mqproxy.Client.Backoff.{reset}
use mqproxy.Client.Paths.{
  Cand, not_started, opening, socket_ready, active, retry, Slot, Paths, call, close_udp_socket,
  add_path, Added, up, no_path_id, failed, Cx, initial, new, new_slot, max_candidates, start_retry,
  after_add, add, start_on, ready_slot, ready_loop, on_mp_ready, at_first, is_opening, is_active,
  is_retry, opened, on_udp_socket, on_path_removed, start_again, on_timer, releases, close_loop,
  on_conn_closed, or_disposed, or_same, or_not_ours,
}

-- The primary path has no socket of its own to open.
abbrev pub MayOpen : Option IpAddr → Cand → Type 0
MayOpen none (opening op) = ⊥
MayOpen none not_started = Unit {0}
MayOpen none (socket_ready sock) = Unit {0}
MayOpen none (active p) = Unit {0}
MayOpen none (retry t) = Unit {0}
MayOpen (some ip) st = Unit {0}

abbrev IsSlot : Slot → Type 0
IsSlot s = MayOpen s.ip s.st

-- A step on a slot keeps its address, and the primary never opens a socket.
abbrev Keeps : Slot → Slot × Cx → Type 0
Keeps s r = (r.0.ip ≡ s.ip) × IsSlot r.0

free_state : (ip : Option IpAddr) (st : Cand) → ((op : ℕ) → st ≡ opening op → ⊥) → MayOpen ip st
free_state none (opening op) h = h op refl
free_state none not_started h = tt
free_state none (socket_ready sock) h = tt
free_state none (active p) h = tt
free_state none (retry t) h = tt
free_state (some ip) st h = tt

start_retry-Keeps : (cx : Cx) (s : Slot) → Keeps s (start_retry cx s)
unfolding start_retry
start_retry-Keeps cx s = (refl, free_state s.ip (retry cx.ids) (λ op e. cc))

after_add-Keeps : (a : Added) (cx : Cx) (s : Slot) (sock : ℕ) → Keeps s (after_add a cx s sock)
unfolding after_add
after_add-Keeps (up p) cx s sock = (refl, free_state s.ip (active p) (λ op e. cc))
after_add-Keeps no_path_id cx s sock = (refl, free_state s.ip (socket_ready sock) (λ op e. cc))
after_add-Keeps failed cx s sock = start_retry-Keeps (call cx (close_udp_socket sock)) s

add-Keeps :
    (cx : Cx) (conn : ℕ) (standby : Bool) (s : Slot) (sock : ℕ)
    → Keeps s (add cx conn standby s sock)
unfolding add
add-Keeps cx conn standby s sock =
    after_add-Keeps (cx.answer (length cx.log)) (call cx (add_path conn sock standby)) s sock

start_on-Keeps :
    (ip : Option IpAddr) (cx : Cx) (conn : ℕ) (standby : Bool) (s : Slot)
    → s.ip ≡ ip
    → Keeps s (start_on ip cx conn standby s)
unfolding start_on
start_on-Keeps none cx conn standby s e = add-Keeps cx conn standby s cx.primary_udp
start_on-Keeps (some a) cx conn standby s e =
    (refl, subst (λ ip. MayOpen ip (opening cx.ids)) (sym e) tt)

ready_slot-Keeps :
    (st : Cand) (cx : Cx) (conn : ℕ) (standby : Bool) (s : Slot)
    → IsSlot s
    → Keeps s (ready_slot st cx conn standby s)
unfolding ready_slot
ready_slot-Keeps not_started cx conn standby s h = start_on-Keeps s.ip cx conn standby s refl
ready_slot-Keeps (socket_ready sock) cx conn standby s h = add-Keeps cx conn standby s sock
ready_slot-Keeps (opening op) cx conn standby s h = (refl, h)
ready_slot-Keeps (active p) cx conn standby s h = (refl, h)
ready_slot-Keeps (retry t) cx conn standby s h = (refl, h)

abbrev ips : List Slot → List (Option IpAddr)
ips ss = map (λ s. s.ip) ss

-- What holds of a list of slots holds after a step on some of them.
abbrev pub SlotsKeep : List Slot → List Slot → Type 0
SlotsKeep ss ss' = (map (λ s. s.ip) ss' ≡ map (λ s. s.ip) ss) × All (λ s. MayOpen s.ip s.st) ss'

SlotsKeep-cons :
    (s s' : Slot) (ss ss' : List Slot)
    → s'.ip ≡ s.ip
    → IsSlot s'
    → SlotsKeep ss ss'
    → SlotsKeep (s ∷ ss) (s' ∷ ss')
SlotsKeep-cons s s' ss ss' e k (es, ks) = (ap (λ ip. ip ∷ ips ss') e ∙ ap (◌∷◌ s.ip) es, (k, ks))

ready_loop-SlotsKeep :
    (cx : Cx) (conn : ℕ) (standby : Bool) (ss : List Slot)
    → All IsSlot ss
    → SlotsKeep ss (ready_loop cx conn standby ss).0
unfolding ready_loop
ready_loop-SlotsKeep cx conn standby [] h = (refl, tt)
ready_loop-SlotsKeep cx conn standby (s ∷ ss) h =
    let (e, k) = ready_slot-Keeps s.st cx conn standby s h.0 in
    SlotsKeep-cons s (ready_slot s.st cx conn standby s).0 ss _ e k
      (ready_loop-SlotsKeep (ready_slot s.st cx conn standby s).1 conn standby ss h.1)

abbrev Changed : List Slot → Option (List Slot × Cx) → Type 0
Changed ss none = Unit {0}
Changed ss (some (ss', cx)) = SlotsKeep ss ss'

at_first-Changed :
    (test : Slot → Bool) (f : Slot → Cx → Slot × Cx) (ss : List Slot) (cx : Cx)
    → ((s : Slot) (c : Cx) → Keeps s (f s c))
    → All IsSlot ss
    → Changed ss (at_first test f ss cx)
unfolding at_first
at_first-Changed test f [] cx h k = tt
at_first-Changed test f (s ∷ ss) cx h k = elim (Bool-cases (test s)) [
  | inl hit ↦ rw hit (SlotsKeep-cons s (f s cx).0 ss ss (h s cx).0 (h s cx).1 (refl, k.1))
  | inr miss ↦ rw miss (later (at_first test f ss cx) (at_first-Changed test f ss cx h k.1))
]
  where
    later :
        (r : Option (List Slot × Cx))
        → Changed ss r
        → Changed (s ∷ ss) (elim r [ none ↦ none | some (ss', cx') ↦ some (s ∷ ss', cx') ])
    later none c = tt
    later (some (ss', cx')) c = SlotsKeep-cons s s ss ss' refl k.0 c

opened-Keeps :
    (r conn : Option ℕ) (standby : Bool) (s : Slot) (cx : Cx) → Keeps s (opened r conn standby s cx)
unfolding opened
opened-Keeps (some sock) (some conn) standby s cx = add-Keeps cx conn standby s sock
opened-Keeps (some sock) none standby s cx = (refl, free_state s.ip not_started (λ op e. cc))
opened-Keeps none conn standby s cx = start_retry-Keeps cx s

start_again-Keeps :
    (conn : Option ℕ) (standby : Bool) (s : Slot) (cx : Cx)
    → Keeps s (start_again conn standby s cx)
unfolding start_again
start_again-Keeps none standby s cx = (refl, free_state s.ip not_started (λ op e. cc))
start_again-Keeps (some conn) standby s cx =
    start_on-Keeps s.ip cx conn standby (record s { st = not_started }) refl

initial-MayOpen : (ip : Option IpAddr) → MayOpen ip (initial ip)
initial-MayOpen none = tt
initial-MayOpen (some ip) = tt

close_loop-SlotsKeep : (ss : List Slot) (cx : Cx) → SlotsKeep ss (close_loop ss cx).0
unfolding close_loop
close_loop-SlotsKeep [] cx = (refl, tt)
close_loop-SlotsKeep (s ∷ ss) cx =
    SlotsKeep-cons s (record s { st = initial s.ip; backoff = reset s.backoff }) ss _ refl
      (initial-MayOpen s.ip) (close_loop-SlotsKeep ss (record cx { log = cx.log ++ releases s.st }))

-- An event of the client, with the runtime's answers to the calls that it makes.
pub data Event : Type 0 where
  mp_ready : Cx → ℕ → Event
  udp_socket : Cx → Option ℕ → ℕ → Option ℕ → Event
  path_removed : Cx → ℕ → Event
  timer : Cx → Option ℕ → ℕ → Event
  conn_closed : Cx → Event

unfoldable pub step : Paths → Event → Paths
step p (mp_ready cx conn) = (on_mp_ready p cx conn).0
step p (udp_socket cx conn op r) = (on_udp_socket p cx conn op r).0
step p (path_removed cx path) = (on_path_removed p cx path).0
step p (timer cx conn id) = (on_timer p cx conn id).0
step p (conn_closed cx) = (on_conn_closed p cx).0

unfoldable pub run : Paths → List Event → Paths
unfolding step
run p [] = p
run p (e ∷ es) = run (step p e) es

step-SlotsKeep : (p : Paths) (e : Event) → All IsSlot p.slots → SlotsKeep p.slots (step p e).slots
unfolding step on_mp_ready on_udp_socket on_path_removed on_timer on_conn_closed
step-SlotsKeep p (mp_ready cx conn) h = ready_loop-SlotsKeep cx conn p.standby p.slots h
step-SlotsKeep p (udp_socket cx conn op r) h = by_slot _ (
    at_first-Changed (is_opening op) (opened r conn p.standby) p.slots cx
      (λ s c. opened-Keeps r conn p.standby s c) h)
  where
    by_slot :
        (o : Option (List Slot × Cx))
        → Changed p.slots o
        → SlotsKeep p.slots (or_disposed p cx r o).0.slots
    by_slot none c = (refl, h)
    by_slot (some (ss, cx')) c = c
step-SlotsKeep p (path_removed cx path) h = by_slot _ (
    at_first-Changed (is_active path) (λ s c. start_retry c s) p.slots cx
      (λ s c. start_retry-Keeps c s) h)
  where
    by_slot :
        (o : Option (List Slot × Cx))
        → Changed p.slots o
        → SlotsKeep p.slots (or_same p cx o).0.slots
    by_slot none c = (refl, h)
    by_slot (some (ss, cx')) c = c
step-SlotsKeep p (timer cx conn id) h = by_slot _ (
    at_first-Changed (is_retry id) (start_again conn p.standby) p.slots cx
      (λ s c. start_again-Keeps conn p.standby s c) h)
  where
    by_slot :
        (o : Option (List Slot × Cx))
        → Changed p.slots o
        → SlotsKeep p.slots (or_not_ours p cx o).0.slots
    by_slot none c = (refl, h)
    by_slot (some (ss, cx')) c = c
step-SlotsKeep p (conn_closed cx) h = close_loop-SlotsKeep p.slots cx

new_slots :
    (max_backoff : ℕ) (l : List (Option IpAddr))
    → All IsSlot (map (new_slot max_backoff) l) × (ips (map (new_slot max_backoff) l) ≡ l)
new_slots max_backoff [] = (tt, refl)
new_slots max_backoff (ip ∷ l) =
    let (all, e) = new_slots max_backoff l in ((initial-MayOpen ip, all), ap (◌∷◌ ip) e)

run-SlotsKeep :
    (p : Paths) (es : List Event) → All IsSlot p.slots → SlotsKeep p.slots (run p es).slots
unfolding run
run-SlotsKeep p [] h = (refl, h)
run-SlotsKeep p (e ∷ es) h =
    let (same, k) = step-SlotsKeep p e h in
    let (same', k') = run-SlotsKeep (step p e) es k in (same' ∙ same, k')

length-ips : (ss : List Slot) → length (ips ss) ≡ length ss
length-ips [] = refl
length-ips (s ∷ ss) = ap suc (length-ips ss)

-- Whatever events come, the candidates stay the configured ones in order, the primary path first and at most
-- eight in all, and the primary never waits for a socket of its own.
pub run_candidates :
    (extra : List IpAddr) (max_backoff : ℕ) (standby : Bool) (es : List Event)
    → let p = run (new extra max_backoff standby) es in
      (map (λ s. s.ip) p.slots ≡ none ∷ take 7 (map some extra))
      × (length p.slots ≤ max_candidates)
      × All (λ s. MayOpen s.ip s.st) p.slots
unfolding new
run_candidates extra max_backoff standby es =
    let l : List (Option IpAddr) = none ∷ take 7 (map some extra) in
    let (all, e) = new_slots max_backoff l in
    let (same, k) = run-SlotsKeep (new extra max_backoff standby) es all in
    (
      same ∙ e,
      omega (
        arith,
        length-ips (run (new extra max_backoff standby) es).slots,
        ap length (same ∙ e),
        length-take 7 (map some extra),
      ),
      k,
    )
