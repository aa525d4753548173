-- ===== src/Client/UdpSession.antt =====
-- The allocation of session ids and the queue of a session that waits for authentication, of
-- crates/mq-proxy/src/client/udp_session.rs.
pub mod Laws
use mqproxy.Prelude.{
  ℕ, zero, suc, ◌+◌, ◌-◌, ◌*◌, ◌%◌, ◌^◌, List, [], ◌∷◌, ◌++◌, Bool, true, false, ◌||◌, Option, none,
  some, ltb, leb, if◌then◌else◌, length,
}

abbrev pub max_sessions_per_conn : ℕ
max_sessions_per_conn = 1024

abbrev pub preauth_sendq_dgrams : ℕ
preauth_sendq_dgrams = 8

abbrev pub preauth_sendq_bytes : ℕ
preauth_sendq_bytes = 8 * 1024

-- The id, and the next one to try; the loop has `fuel` rounds, and `none` is more of them.
unfoldable pub alloc_sid : ℕ → ℕ → (ℕ → Bool) → Option (ℕ × ℕ)
alloc_sid zero next live = none
alloc_sid (suc fuel) next live =
    let next' = (next + 1) % 2 ^ 32 in
    let rest = alloc_sid fuel next' live in if live next then rest else some (next, next')

unfoldable pub sum_len : List (List ℕ) → ℕ
sum_len [] = 0
sum_len (d ∷ q) = length d + sum_len q

-- The loop: the oldest leave while a bound is exceeded. A `pop_front` of nothing is a panic. The result has the
-- evictions.
unfoldable pub make_room : ℕ → List (List ℕ) → ℕ → ℕ → Option (List (List ℕ) × ℕ)
make_room size [] bytes n =
    if leb preauth_sendq_dgrams 0 || ltb preauth_sendq_bytes (bytes + size)
    then none
    else some ([], n)
make_room size (d ∷ q) bytes n =
    let rest = make_room size q (bytes - length d) (n + 1) in
    if leb preauth_sendq_dgrams (length (d ∷ q)) || ltb preauth_sendq_bytes (bytes + size)
    then rest
    else some (d ∷ q, n)

abbrev pub push_back : List ℕ → Option (List (List ℕ) × ℕ) → Option (List (List ℕ) × ℕ)
push_back p none = none
push_back p (some (q, n)) = some (q ++ (p ∷ []), n)

-- The queue, and by how much `sendq_evictions` grows.
unfoldable pub enqueue : List (List ℕ) → List ℕ → Option (List (List ℕ) × ℕ)
unfolding make_room sum_len
enqueue q p =
    if ltb preauth_sendq_bytes (length p)
    then some (q, 1)
    else push_back p (make_room (length p) q (sum_len q) 0)
