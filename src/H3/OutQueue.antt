-- ===== src/H3/OutQueue.antt =====
-- crates/mq-h3/src/queue.rs: the outer event queue. A hash set is a list without repetition, and the
-- discriminant of an event its place among the constructors.
pub mod Laws
use mqproxy.Prelude.{
  ℕ, ◌≡◌, ◌↔◌, refl, List, [], ◌∷◌, ◌++◌, Bool, true, false, ◌&&◌, ◌||◌, Option, none, some, ◌==◌,
  ==_iff, arith, if◌then◌else◌,
}
use mqproxy.Prelude.Maps.{Key}
use mqproxy.Prelude.Sets.{has, remove}
use mqproxy.Transport.Ids.{slot}
use mqproxy.Transport.Event.{
  Event, conn_established, conn_closed, new_conn, new_stream, stream_readable, stream_writable,
  stream_closed, stream_peer_reset, stream_stop_sending, stream_close_stats, mp_ready,
  datagram_readable, path_removed, h3_request, h3_readable, h3_writable, h3_closed,
}

-- A level event's kind and slot.
pub record Flag : Type 0 where
  pub kind : ℕ
  pub at : ℕ

abbrev pub same_flag : Flag → Flag → Bool
same_flag f g = (f.kind == g.kind) && (f.at == g.at)

pub same_flag_iff : (f g : Flag) → (same_flag f g ≡ true) ↔ (f ≡ g)
same_flag_iff f g = ground arith

instance abbrev pub flag_key : Key Flag
flag_key = record { same = same_flag; same_iff = same_flag_iff }

pub record OutQueue : Type 0 where
  pub q : List Event
  pub flags : List Flag

abbrev pub default : OutQueue
default = record { q = []; flags = [] }

unfoldable pub level : Event → Option Flag
level (stream_readable s) = some (record { kind = 4; at = slot s })
level (stream_writable s) = some (record { kind = 5; at = slot s })
level (mp_ready c) = some (record { kind = 10; at = slot c })
level (datagram_readable c) = some (record { kind = 11; at = slot c })
level (h3_readable r) = some (record { kind = 14; at = slot r })
level (h3_writable r) = some (record { kind = 15; at = slot r })
level (conn_established c) = none
level (conn_closed c reason) = none
level (new_conn c proto) = none
level (new_stream c s info) = none
level (stream_closed s) = none
level (stream_peer_reset s code) = none
level (stream_stop_sending s code) = none
level (stream_close_stats s stats) = none
level (path_removed c path) = none
level (h3_request c r) = none
level (h3_closed r stats) = none

unfoldable pub is_close : Event → Bool
is_close (stream_closed s) = true
is_close (stream_close_stats s stats) = true
is_close (h3_closed r stats) = true
is_close (conn_closed c reason) = true
is_close (conn_established c) = false
is_close (new_conn c proto) = false
is_close (new_stream c s info) = false
is_close (stream_readable s) = false
is_close (stream_writable s) = false
is_close (stream_peer_reset s code) = false
is_close (stream_stop_sending s code) = false
is_close (mp_ready c) = false
is_close (datagram_readable c) = false
is_close (path_removed c path) = false
is_close (h3_request c r) = false
is_close (h3_readable r) = false
is_close (h3_writable r) = false

abbrev pub push_as : Option Flag → OutQueue → Event → OutQueue
push_as none o e = record o { q = o.q ++ (e ∷ []) }
push_as (some f) o e =
    if has f o.flags then o else record { q = o.q ++ (e ∷ []); flags = f ∷ o.flags }

unfoldable pub push : OutQueue → Event → OutQueue
unfolding level
push o e = push_as (level e) o e

abbrev pub unflag : Option Flag → List Flag → List Flag
unflag none flags = flags
unflag (some f) flags = remove f flags

unfoldable pub pop_loop : (Event → Bool) → List Event → List Flag → OutQueue × Option Event
unfolding level is_close
pop_loop live [] flags = (record { q = []; flags = flags }, none)
pop_loop live (e ∷ es) flags =
    let rest = pop_loop live es (unflag (level e) flags) in
    if is_close e || live e
    then (record { q = es; flags = unflag (level e) flags }, some e)
    else rest

abbrev pub pop : OutQueue → (Event → Bool) → OutQueue × Option Event
pop o live = pop_loop live o.q o.flags
