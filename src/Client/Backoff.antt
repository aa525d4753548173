-- ===== src/Client/Backoff.antt =====
-- crates/mq-proxy/src/client/backoff.rs: the client's reconnect schedule. Delays and the cap are in
-- milliseconds, times in microseconds, and the configured maximum in nanoseconds; the difference of two
-- times stops at 0, as in `Time::sub`.
pub mod Laws
use mqproxy.Prelude.{
  ℕ, ◌+◌, ◌-◌, ◌*◌, ◌/◌, ◌%◌, ◌^◌, Bool, Option, none, some, min, max, leb, if◌then◌else◌, ◌≤◌, ◌<◌,
}

abbrev pub base_ms : ℕ
base_ms = 250

-- One second, in nanoseconds.
abbrev pub min_cap : ℕ
min_cap = 1_000_000_000

-- Ten seconds, in microseconds.
abbrev pub serving_reset : ℕ
serving_reset = 10_000_000

-- A shift of a u64 drops the high bits.
unfoldable pub backoff_ms : ℕ → ℕ → ℕ → ℕ
backoff_ms base cap attempt = min (base * 2 ^ min attempt 31 % 2 ^ 64) cap

pub record Backoff : Type 0 where
  pub cap_ms : ℕ
  pub attempts : ℕ
  pub serving_since : Option ℕ

-- `as_millis` drops what is left of a millisecond; a cap over a u64 becomes the largest u64.
abbrev pub new : ℕ → Backoff
new max_backoff = record {
  cap_ms = min (max max_backoff min_cap / 1_000_000) (2 ^ 64 - 1);
  attempts = 0;
  serving_since = none;
}

abbrev pub on_serving : Backoff → ℕ → Backoff
on_serving b now = record b { serving_since = some now }

-- The counter after the reset for 10 s of serving.
unfoldable pub attempts_at : Option ℕ → ℕ → ℕ → ℕ
attempts_at none attempts now = attempts
attempts_at (some since) attempts now = if leb serving_reset (now - since) then 0 else attempts

-- The new state, and the delay. The counter is a u32 whose increment saturates.
unfoldable pub next_delay : Backoff → ℕ → ℕ → Backoff × ℕ
unfolding backoff_ms attempts_at
next_delay b now rnd =
    let attempts = min (attempts_at b.serving_since b.attempts now + 1) (2 ^ 32 - 1) in
    let d = backoff_ms base_ms b.cap_ms attempts in
    (record b { attempts = attempts; serving_since = none }, d / 2 + rnd % (d / 2 + 1))

abbrev pub reset : Backoff → Backoff
reset b = record b { attempts = 0; serving_since = none }
