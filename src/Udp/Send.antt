-- ===== src/Udp/Send.antt =====
-- crates/mq-proxy/src/udp/send.rs, with the counters of udp/mod.rs: a UDP payload goes out as datagrams. The
-- runtime behind `Cx` is outside: it tells the MSS, and accepts a datagram or not; the log has each datagram
-- that it was handed.
pub mod Delivery
pub mod Emits
pub mod Laws
use mqproxy.Prelude.{
  ℕ, ◌+◌, ◌-◌, ◌%◌, ◌^◌, List, [], ◌∷◌, ◌++◌, Bool, true, false, ◌||◌, Option, none, some, Result,
  ok, err, ltb, ◌==◌, if◌then◌else◌, length, min,
}
use mqproxy.Prelude.Options.{◌>>=◌}
use mqproxy.Wire.UdpMsg.{
  UdpMsgHdr, SplitError, too_many_frags, zero_mss, udp_msg_hdr, encode, split,
}

abbrev pub mss_refresh : ℕ
mss_refresh = 64

-- All fields are u32.
pub record Counters : Type 0 where
  pub frags_sent : ℕ
  pub frags_reassembled : ℕ
  pub drops_send_fail : ℕ
  pub drops_oversize : ℕ
  pub defrag_drops : ℕ
  pub preopen_evictions : ℕ
  pub drops_preauth : ℕ
  pub drops_empty : ℕ
  pub drops_unknown_sid : ℕ
  pub sendq_evictions : ℕ
  pub drops_session_limit : ℕ
  pub drops_dst_limit : ℕ

abbrev pub add_u32 : ℕ → ℕ → ℕ
add_u32 a b = (a + b) % 2 ^ 32

abbrev pub send_fail : Counters → Counters
send_fail c = record c { drops_send_fail = add_u32 c.drops_send_fail 1 }

-- Each answer depends on how many datagrams were handed over before.
pub record Cx : Type 0 where
  pub datagram_mss : ℕ → ℕ
  pub accepts : ℕ → Bool
  pub log : List (List ℕ)

pub record MssCache : Type 0 where
  pub value : ℕ
  pub countdown : ℕ

abbrev pub new : MssCache
new = record { value = 0; countdown = 0 }

-- The new cache, and the payload bytes per datagram.
unfoldable pub payload : MssCache → Cx → MssCache × ℕ
payload m cx =
    let m' : MssCache =
      if (m.value == 0) || (m.countdown == 0)
      then record { value = cx.datagram_mss (length cx.log); countdown = mss_refresh }
      else m in
    (m', m'.value - udp_msg_hdr)

abbrev pub emitted : MssCache → MssCache
emitted m = record m { countdown = m.countdown - 1 }

abbrev pub invalidate : MssCache → MssCache
invalidate m = record m { value = 0 }

pub record SendOutcome : Type 0 where
  pub frags_ok : ℕ
  pub failed : ℕ

abbrev pub nothing : SendOutcome
nothing = record { frags_ok = 0; failed = 0 }

-- What the closure changes.
pub record Sending : Type 0 where
  pub cx : Cx
  pub mss : MssCache
  pub counters : Counters
  pub out : SendOutcome

abbrev pub was_sent : Sending → Cx → Bool → Sending
was_sent s cx true = record s {
  cx = cx;
  mss = emitted s.mss;
  out = record s.out { frags_ok = (s.out.frags_ok + 1) % 2 ^ 8 };
}
was_sent s cx false = record s {
  cx = cx;
  counters = send_fail s.counters;
  out = record s.out { failed = (s.out.failed + 1) % 2 ^ 8 };
}

-- The header and the slice in one datagram.
abbrev pub datagram : UdpMsgHdr × List ℕ → List ℕ
datagram (h, slice) = encode h ++ slice

-- The closure; `body` is the length of the scratch behind the header, and a longer slice a panic.
unfoldable pub emit : ℕ → Sending → UdpMsgHdr × List ℕ → Option Sending
emit body s f =
    let cx = s.cx in
    if ltb body (length f.1)
    then none
    else some
        (was_sent s (record cx { log = cx.log ++ (datagram f ∷ []) }) (cx.accepts (length cx.log)))

unfoldable pub emit_all : ℕ → Sending → List (UdpMsgHdr × List ℕ) → Option Sending
unfolding emit
emit_all body s [] = some s
emit_all body s (f ∷ fs) = do s' ← emit body s f; emit_all body s' fs

abbrev pub count_frags : Sending → Sending
count_frags s =
    let c = s.counters in
    if ltb 1 s.out.frags_ok
    then record s { counters = record c { frags_sent = add_u32 c.frags_sent s.out.frags_ok } }
    else s

abbrev pub run_split : ℕ → Sending → Result SplitError (List (UdpMsgHdr × List ℕ)) → Option Sending
run_split body s (ok fs) = do s' ← emit_all body s fs; some (count_frags s')
run_split body s (err too_many_frags) =
    let c = s.counters in
    some (record s { counters = record c { drops_oversize = add_u32 c.drops_oversize 1 } })
run_split body s (err zero_mss) = some (record s { counters = send_fail s.counters })

-- The scratch has room for the header and the longest slice, be it on the stack or on the heap. With no room for
-- a byte there is no split.
unfoldable pub send_in :
    ℕ → Sending → List ℕ → Result SplitError (List (UdpMsgHdr × List ℕ)) → Option Sending
unfolding emit_all
send_in mss_payload s bytes r =
    if mss_payload == 0
    then some (record s { counters = send_fail s.counters })
    else run_split (min mss_payload (length bytes)) s r

unfoldable pub send_packet : Cx → MssCache → ℕ → ℕ → List ℕ → Counters → Option Sending
unfolding payload send_in split
send_packet cx mss sid packet_id bytes c =
    let (mss', mss_payload) = payload mss cx in
    send_in mss_payload (record { cx = cx; mss = mss'; counters = c; out = nothing }) bytes
      (split sid packet_id bytes mss_payload)
