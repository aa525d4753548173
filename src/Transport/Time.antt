-- ===== src/Transport/Time.antt =====
-- crates/mq-transport-api/src/time.rs: monotonic times. Times and durations are in microseconds.
pub mod Laws
use mqproxy.Prelude.{ℕ, ◌+◌, ◌-◌, ◌^◌, min}

-- `u64::MAX`.
abbrev pub time_max : ℕ
time_max = 2 ^ 64 - 1

-- A duration, saturated.
abbrev pub us : ℕ → ℕ
us d = min d time_max

-- `Add<Duration>`.
unfoldable pub add : ℕ → ℕ → ℕ
add t d = min (t + us d) time_max

-- `Sub<Duration>`.
unfoldable pub sub : ℕ → ℕ → ℕ
sub t d = t - us d

-- `Sub`, the duration between two times.
unfoldable pub since : ℕ → ℕ → ℕ
since t earlier = t - earlier
