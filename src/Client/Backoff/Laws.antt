-- ===== src/Client/Backoff/Laws.antt =====
-- The bounds on the delays of crates/mq-proxy/src/client/backoff.rs.
use mqproxy.Prelude.{
  ℕ, ◌+◌, ◌-◌, ◌*◌, ◌/◌, ◌%◌, ◌^◌, ◌≤◌, ◌<◌, ◌≡◌, ◌⊎◌, refl, min, arith, Option, none, some,
}
use native.Mathlib.Nat.{pow-le-pow_right}
use mqproxy.Client.Backoff.{new, Backoff, backoff_ms, next_delay, attempts_at}

-- No bit of the base is lost.
backoff_ms_lem : (cap attempt : ℕ) → backoff_ms 250 cap attempt ≡ min (250 * 2 ^ min attempt 31) cap
unfolding backoff_ms
backoff_ms_lem cap attempt =
    let h : 2 ^ min attempt 31 ≤ 2 ^ 31 =
      pow-le-pow_right {n = 2} (omega arith) {i = min attempt 31} {j = 31} (omega arith) in
    let small : 250 * 2 ^ min attempt 31 % 2 ^ 64 ≡ 250 * 2 ^ min attempt 31 = omega arith in
    rw small refl

-- The counter before and after: it starts anew if the client served for 10 s, and goes on if it served for less
-- or not at all.
abbrev pub Counts : Option ℕ → ℕ → ℕ → ℕ → Type 0
Counts none now before after = after ≡ min (before + 1) (2 ^ 32 - 1)
Counts (some since) now before after =
    ((since + 10_000_000 ≤ now) × (after ≡ 1))
    ⊎ ((now < since + 10_000_000) × (after ≡ min (before + 1) (2 ^ 32 - 1)))

attempts_at-Counts :
    (serving_since : Option ℕ) (now before : ℕ)
    → Counts serving_since now before (min (attempts_at serving_since before now + 1) (2 ^ 32 - 1))
unfolding attempts_at
attempts_at-Counts none now before = refl
attempts_at-Counts (some since) now before = ground arith

pub record InBand (b : Backoff) (now rnd : ℕ) : Type 0 where
  pub delay_le :
      (next_delay b now rnd).1 ≤ min (250 * 2 ^ min (next_delay b now rnd).0.attempts 31) b.cap_ms
  pub half_le :
      min (250 * 2 ^ min (next_delay b now rnd).0.attempts 31) b.cap_ms / 2
      ≤ (next_delay b now rnd).1
  pub at_least : 250 ≤ (next_delay b now rnd).1
  pub attempts : Counts b.serving_since now b.attempts (next_delay b now rnd).0.attempts
  pub not_serving : (next_delay b now rnd).0.serving_since ≡ none
  pub same_cap : (next_delay b now rnd).0.cap_ms ≡ b.cap_ms

-- With a cap of at least a second, the delay is between half of d and d, for the d that is the base
-- doubled once for each attempt up to 31 and cut at the cap, and at least 250 ms. The counter is 1
-- afterwards if the client served for at least 10 s, and one more than before, at most 2^32 - 1, if it served for
-- less or not at all. The client no longer counts as serving, and the cap stays.
pub next_delay-InBand : (b : Backoff) (now rnd : ℕ) → 1000 ≤ b.cap_ms → InBand b now rnd
unfolding next_delay
next_delay-InBand b now rnd h =
    let a : ℕ = min (attempts_at b.serving_since b.attempts now + 1) (2 ^ 32 - 1) in
    let e : backoff_ms 250 b.cap_ms a ≡ min (250 * 2 ^ min a 31) b.cap_ms =
      backoff_ms_lem b.cap_ms a in
    let two : 2 ^ 1 ≤ 2 ^ min a 31 =
      pow-le-pow_right {n = 2} (omega arith) {i = 1} {j = min a 31} (omega arith) in
    record {
      delay_le = omega (arith, e);
      half_le = omega (arith, e);
      at_least = omega (arith, e, two);
      attempts = attempts_at-Counts b.serving_since now b.attempts;
      not_serving = refl;
      same_cap = refl;
    }

-- The cap of every schedule is at least a second.
pub new_cap : (max_backoff : ℕ) → 1000 ≤ (new max_backoff).cap_ms
new_cap max_backoff = omega arith
