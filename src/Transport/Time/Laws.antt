-- ===== src/Transport/Time/Laws.antt =====
-- The arithmetic of crates/mq-transport-api/src/time.rs saturates at both ends.
use mqproxy.Prelude.{ℕ, ◌-◌, ◌≤◌, ◌≡◌, arith, min}
use mqproxy.Transport.Time.{time_max, add, sub, since}

-- From a time that a u64 holds, a delay gives a later time that a u64 holds, and the difference of the two
-- is the delay, cut where the time saturates. Going back is at least 0, and from there, unless it
-- stopped at 0, the same delay leads to the time again.
pub since-add :
    (t d : ℕ)
    → t ≤ time_max
    → (add t d ≤ time_max)
      × (t ≤ add t d)
      × (since (add t d) t ≡ min d (time_max - t))
      × (sub t d ≤ t)
      × (d ≤ t → add (sub t d) d ≡ t)
unfolding add sub since
since-add t d h =
    (omega arith, omega (arith, h), omega (arith, h), omega arith, λ le. omega (arith, h, le))
