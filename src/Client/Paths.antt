-- ===== src/Client/Paths.antt =====
-- crates/mq-proxy/src/client/paths.rs: the extra multipath paths of the client and the primary one. The
-- runtime behind `Cx` is outside: it numbers the operations and timers that it hands out, answers each
-- call, and keeps the log of the calls.
pub mod Laws
pub mod Sockets
use mqproxy.Prelude.{
  ℕ, ◌+◌, List, [], ◌∷◌, ◌++◌, Bool, true, false, Option, none, some, ◌==◌, if◌then◌else◌, length,
  map, take,
}
use mqproxy.Ingress.Request.{IpAddr}
use mqproxy.Client.Backoff
use mqproxy.Client.Backoff.{Backoff, on_serving, next_delay}

abbrev pub max_candidates : ℕ
max_candidates = 8

-- A candidate's state: sockets, operations, paths and timers are numbers.
pub data Cand : Type 0 where
  not_started : Cand
  opening : ℕ → Cand
  socket_ready : ℕ → Cand
  active : ℕ → Cand
  retry : ℕ → Cand

-- `none` for `ip` is the primary path.
pub record Slot : Type 0 where
  pub ip : Option IpAddr
  pub st : Cand
  pub backoff : Backoff

pub record Paths : Type 0 where
  pub slots : List Slot
  pub standby : Bool

-- The calls of `Cx` that change something outside.
pub data Call : Type 0 where
  open_udp_socket : IpAddr → ℕ → Call
  close_udp_socket : ℕ → Call
  cancel_udp_socket : ℕ → Call
  add_path : ℕ → ℕ → Bool → Call
  set_timer : ℕ → ℕ → Call
  cancel_timer : ℕ → Call

-- The answers of `add_path`.
pub data Added : Type 0 where
  up : ℕ → Added
  no_path_id : Added
  failed : Added

-- `answer` and `rnd` depend on how much was called before; `ids` is the next number to hand out.
pub record Cx : Type 0 where
  pub now : ℕ
  pub primary_udp : ℕ
  pub ids : ℕ
  pub answer : ℕ → Added
  pub rnd : ℕ → ℕ
  pub log : List Call

abbrev pub initial : Option IpAddr → Cand
initial none = active 0
initial (some ip) = not_started

abbrev pub call : Cx → Call → Cx
call cx c = record cx { log = cx.log ++ (c ∷ []) }

abbrev pub new_slot : ℕ → Option IpAddr → Slot
new_slot max_backoff ip = record { ip = ip; st = initial ip; backoff = Backoff.new max_backoff }

-- `extra` are the configured paths after the first.
unfoldable pub new : List IpAddr → ℕ → Bool → Paths
new extra max_backoff standby = record {
  slots = map (new_slot max_backoff) (take max_candidates (none ∷ map some extra));
  standby = standby;
}

-- A timer is set for the backoff's next delay.
unfoldable pub start_retry : Cx → Slot → Slot × Cx
start_retry cx s =
    let (b, d) = next_delay s.backoff cx.now (cx.rnd (length cx.log)) in
    (
      record s { st = retry cx.ids; backoff = b },
      record cx { ids = cx.ids + 1; log = cx.log ++ (set_timer d cx.ids ∷ []) },
    )

unfoldable pub after_add : Added → Cx → Slot → ℕ → Slot × Cx
unfolding start_retry
after_add (up p) cx s sock = (record s { st = active p; backoff = on_serving s.backoff cx.now }, cx)
after_add no_path_id cx s sock = (record s { st = socket_ready sock }, cx)
after_add failed cx s sock = start_retry (call cx (close_udp_socket sock)) s

unfoldable pub add : Cx → ℕ → Bool → Slot → ℕ → Slot × Cx
unfolding after_add
add cx conn standby s sock =
    after_add (cx.answer (length cx.log)) (call cx (add_path conn sock standby)) s sock

unfoldable pub start_on : Option IpAddr → Cx → ℕ → Bool → Slot → Slot × Cx
unfolding add
start_on none cx conn standby s = add cx conn standby s cx.primary_udp
start_on (some ip) cx conn standby s = (
  record s { st = opening cx.ids },
  record cx { ids = cx.ids + 1; log = cx.log ++ (open_udp_socket ip cx.ids ∷ []) },
)

abbrev pub start : Cx → ℕ → Bool → Slot → Slot × Cx
start cx conn standby s = start_on s.ip cx conn standby s

unfoldable pub ready_slot : Cand → Cx → ℕ → Bool → Slot → Slot × Cx
unfolding start_on add
ready_slot not_started cx conn standby s = start_on s.ip cx conn standby s
ready_slot (socket_ready sock) cx conn standby s = add cx conn standby s sock
ready_slot (opening op) cx conn standby s = (s, cx)
ready_slot (active p) cx conn standby s = (s, cx)
ready_slot (retry t) cx conn standby s = (s, cx)

unfoldable pub ready_loop : Cx → ℕ → Bool → List Slot → List Slot × Cx
unfolding ready_slot
ready_loop cx conn standby [] = ([], cx)
ready_loop cx conn standby (s ∷ ss) =
    let (s', cx1) = ready_slot s.st cx conn standby s in
    let (ss', cx2) = ready_loop cx1 conn standby ss in (s' ∷ ss', cx2)

unfoldable pub on_mp_ready : Paths → Cx → ℕ → Paths × Cx
unfolding ready_loop
on_mp_ready p cx conn =
    let (ss, cx') = ready_loop cx conn p.standby p.slots in (record p { slots = ss }, cx')

-- `position`, and a change of the slot there; `none` if no slot fits.
unfoldable pub at_first :
    (Slot → Bool) → (Slot → Cx → Slot × Cx) → List Slot → Cx → Option (List Slot × Cx)
at_first test f [] cx = none
at_first test f (s ∷ ss) cx =
    let rest = at_first test f ss cx in
    if test s
    then (let (s', cx') = f s cx in some (s' ∷ ss, cx'))
    else elim rest [ none ↦ none | some (ss', cx') ↦ some (s ∷ ss', cx') ]

abbrev pub is_opening : ℕ → Slot → Bool
is_opening op s = elim s.st [
  | opening o ↦ o == op
  | not_started ↦ false
  | socket_ready k ↦ false
  | active p ↦ false
  | retry t ↦ false
]

abbrev pub is_active : ℕ → Slot → Bool
is_active path s = elim s.st [
  | active p ↦ p == path
  | not_started ↦ false
  | socket_ready k ↦ false
  | opening o ↦ false
  | retry t ↦ false
]

abbrev pub is_retry : ℕ → Slot → Bool
is_retry id s = elim s.st [
  | retry t ↦ t == id
  | not_started ↦ false
  | socket_ready k ↦ false
  | opening o ↦ false
  | active p ↦ false
]

-- A socket that opened, or `none` for an error; with the live connection, if there is one.
unfoldable pub opened : Option ℕ → Option ℕ → Bool → Slot → Cx → Slot × Cx
unfolding add start_retry
opened (some sock) (some conn) standby s cx = add cx conn standby s sock
opened (some sock) none standby s cx =
    (record s { st = not_started }, call cx (close_udp_socket sock))
opened none conn standby s cx = start_retry cx s

abbrev pub dispose : Option ℕ → Cx → Cx
dispose none cx = cx
dispose (some sock) cx = call cx (close_udp_socket sock)

abbrev pub or_disposed : Paths → Cx → Option ℕ → Option (List Slot × Cx) → Paths × Cx
or_disposed p cx r none = (p, dispose r cx)
or_disposed p cx r (some (ss, cx')) = (record p { slots = ss }, cx')

unfoldable pub on_udp_socket : Paths → Cx → Option ℕ → ℕ → Option ℕ → Paths × Cx
unfolding at_first opened
on_udp_socket p cx conn op r =
    or_disposed p cx r (at_first (is_opening op) (opened r conn p.standby) p.slots cx)

unfoldable pub owns_loop : List Slot → ℕ → Bool
owns_loop [] op = false
owns_loop (s ∷ ss) op = let rest = owns_loop ss op in if is_opening op s then true else rest

abbrev pub owns : Paths → ℕ → Bool
owns p op = owns_loop p.slots op

abbrev pub or_same : Paths → Cx → Option (List Slot × Cx) → Paths × Cx
or_same p cx none = (p, cx)
or_same p cx (some (ss, cx')) = (record p { slots = ss }, cx')

unfoldable pub on_path_removed : Paths → Cx → ℕ → Paths × Cx
unfolding at_first
on_path_removed p cx path =
    or_same p cx (at_first (is_active path) (λ s c. start_retry c s) p.slots cx)

-- The retry is over: the candidate starts again if there is a connection.
unfoldable pub start_again : Option ℕ → Bool → Slot → Cx → Slot × Cx
unfolding start_on
start_again none standby s cx = (record s { st = not_started }, cx)
start_again (some conn) standby s cx = start_on s.ip cx conn standby (record s { st = not_started })

abbrev pub or_not_ours : Paths → Cx → Option (List Slot × Cx) → Paths × Cx × Bool
or_not_ours p cx none = (p, cx, false)
or_not_ours p cx (some (ss, cx')) = (record p { slots = ss }, cx', true)

unfoldable pub on_timer : Paths → Cx → Option ℕ → ℕ → Paths × Cx × Bool
unfolding at_first start_again
on_timer p cx conn id =
    or_not_ours p cx (at_first (is_retry id) (start_again conn p.standby) p.slots cx)

-- What a slot still has open is given back.
abbrev pub releases : Cand → List Call
releases not_started = []
releases (opening op) = cancel_udp_socket op ∷ []
releases (socket_ready sock) = close_udp_socket sock ∷ []
releases (active p) = []
releases (retry t) = cancel_timer t ∷ []

unfoldable pub close_loop : List Slot → Cx → List Slot × Cx
close_loop [] cx = ([], cx)
close_loop (s ∷ ss) cx =
    let (ss', cx') = close_loop ss (record cx { log = cx.log ++ releases s.st }) in
    (record s { st = initial s.ip; backoff = Backoff.reset s.backoff } ∷ ss', cx')

unfoldable pub on_conn_closed : Paths → Cx → Paths × Cx
unfolding close_loop
on_conn_closed p cx = let (ss, cx') = close_loop p.slots cx in (record p { slots = ss }, cx')
