-- ===== src/Udp/PreOpen.antt =====
-- crates/mq-proxy/src/udp/preopen.rs: the datagrams that wait for their session.
-- Times are in microseconds; the difference of two times stops at 0, as in `Time::sub`.
pub mod Laws
use mqproxy.Prelude.{
  ℕ, zero, suc, ◌+◌, ◌-◌, ◌*◌, List, [], ◌∷◌, ◌++◌, Bool, true, false, not, ◌&&◌, ◌||◌, ltb, leb,
  ◌==◌, if◌then◌else◌, length,
}

abbrev pub preopen_dgrams : ℕ
preopen_dgrams = 16

abbrev pub preopen_bytes : ℕ
preopen_bytes = 32 * 1024

-- 250 ms.
abbrev pub preopen_ttl : ℕ
preopen_ttl = 250_000

pub record Entry : Type 0 where
  pub sid : ℕ
  pub at : ℕ
  pub datagram : List ℕ

-- The oldest entry comes first; `bytes` is the sum of the lengths.
pub record PreOpen : Type 0 where
  pub q : List Entry
  pub bytes : ℕ

abbrev pub new : PreOpen
new = record { q = []; bytes = 0 }

abbrev pub is_stale : ℕ → Entry → Bool
is_stale now e = ltb preopen_ttl (now - e.at)

-- The first loop of `push`: expired entries leave from the front.
unfoldable pub sweep : ℕ → List Entry → ℕ → PreOpen
sweep now [] bytes = record { q = []; bytes = bytes }
sweep now (e ∷ q) bytes =
    if is_stale now e
    then sweep now q (bytes - length e.datagram)
    else record { q = e ∷ q; bytes = bytes }

-- The second loop: the oldest entries leave until `size` bytes fit. Its result has the evictions.
unfoldable pub evict : ℕ → List Entry → ℕ → ℕ → PreOpen × ℕ
evict size [] bytes n = (record { q = []; bytes = bytes }, n)
evict size (e ∷ q) bytes n =
    if leb preopen_dgrams (length (e ∷ q)) || ltb preopen_bytes (bytes + size)
    then evict size q (bytes - length e.datagram) (n + 1)
    else (record { q = e ∷ q; bytes = bytes }, n)

-- The new state, and the evictions.
unfoldable pub push : PreOpen → ℕ → ℕ → List ℕ → PreOpen × ℕ
push p now sid datagram =
    let swept = sweep now p.q p.bytes in
    if ltb preopen_bytes (length datagram)
    then (swept, 1)
    else let (r, evictions) = evict (length datagram) swept.q swept.bytes 0 in
      (
        record {
          q = r.q ++ (record { sid = sid; at = now; datagram = datagram } ∷ []);
          bytes = r.bytes + length datagram;
        },
        evictions,
      )

-- The loop of `take`: `kept` is the queue that it fills again, `out` the datagrams that it takes.
unfoldable pub take_loop :
    ℕ → ℕ → List Entry → List Entry → ℕ → List (List ℕ) → PreOpen × List (List ℕ)
take_loop now sid [] kept bytes out = (record { q = kept; bytes = bytes }, out)
take_loop now sid (e ∷ q) kept bytes out =
    if not (e.sid == sid)
    then take_loop now sid q (kept ++ (e ∷ [])) bytes out
    else take_loop now sid q kept (bytes - length e.datagram)
        (if leb (now - e.at) preopen_ttl then out ++ (e.datagram ∷ []) else out)

unfoldable pub take : PreOpen → ℕ → ℕ → PreOpen × List (List ℕ)
take p now sid = take_loop now sid p.q [] p.bytes []

unfoldable pub total : List Entry → ℕ
total [] = 0
total (e ∷ q) = length e.datagram + total q

unfoldable pub retain : (Entry → Bool) → List Entry → List Entry
retain keep [] = []
retain keep (e ∷ q) = if keep e then e ∷ retain keep q else retain keep q

unfoldable pub discard : PreOpen → ℕ → PreOpen
unfolding total retain
discard p sid = let q = retain (λ e. not (e.sid == sid)) p.q in record { q = q; bytes = total q }
