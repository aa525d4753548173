-- ===== src/Server/Accounting.antt =====
-- crates/mq-proxy/src/server/origin/accounting.rs: the counters of an origin connection, with the scan of its
-- records in `settle` of origin/pump.rs. Times are in microseconds; the difference of two stops at 0.
-- The counters are u32.
pub mod Laws
use mqproxy.Prelude.{
  ℕ, zero, suc, ◌+◌, ◌-◌, ◌*◌, ◌%◌, ◌^◌, List, [], ◌∷◌, Bool, true, false, not, ◌&&◌, ◌||◌, Option,
  none, some, leb, ltb, ◌==◌, if◌then◌else◌, max,
}
use mqproxy.Prelude.Options.{◌>>=◌}

-- 118 seconds.
abbrev pub idle_max : ℕ
idle_max = 118_000_000

pub record ConnAccounting : Type 0 where
  pub active : ℕ
  pub ended_unreleased : ℕ
  pub completed : Bool

abbrev pub default : ConnAccounting
default = record { active = 0; ended_unreleased = 0; completed = false }

pub data SweepClass : Type 0 where
  a : SweepClass
  e : SweepClass
  keep : SweepClass

abbrev pub assign : ConnAccounting → ConnAccounting
assign c = record c { active = (c.active + 1) % 2 ^ 32 }

abbrev pub drop_active : ConnAccounting → ℕ → Option ConnAccounting
drop_active c zero = none
drop_active c (suc n) = some (record c { active = n })

-- An `active -= 1` at 0 is a panic.
unfoldable pub record_dropped : ConnAccounting → Bool → Option ConnAccounting
record_dropped c true = drop_active c c.active
record_dropped c false = some (record c { ended_unreleased = (c.ended_unreleased + 1) % 2 ^ 32 })

abbrev pub draining : ConnAccounting → Bool
draining c = ltb 0 c.ended_unreleased || c.completed

abbrev pub h2_hit_allowed : ConnAccounting → ℕ → Bool
h2_hit_allowed c max_streams = not (draining c) && ltb c.active max_streams

-- `is_some_and(|t| now - t >= span)`.
abbrev pub has_aged : ℕ → ℕ → Option ℕ → Bool
has_aged now span none = false
has_aged now span (some t) = leb span (now - t)

unfoldable pub retire_eligible : ConnAccounting → ℕ → ℕ → Option ℕ → Bool
retire_eligible c now sweep newest_ended =
    ltb 0 c.ended_unreleased && (c.active == c.ended_unreleased) && has_aged now sweep newest_ended

unfoldable pub sweep_class : ConnAccounting → Option ℕ → Option ℕ → ℕ → ℕ → SweepClass
unfolding retire_eligible
sweep_class c idle_since newest_ended now sweep =
    if has_aged now idle_max idle_since
    then a
    else if retire_eligible c now sweep newest_ended
    then e
    else keep

-- A record of the connection: `ended` has whether its upload is released, whether it is clean, and since when.
pub data OriginReq : Type 0 where
  connecting : OriginReq
  assigned : OriginReq
  ended : Bool → Bool → ℕ → OriginReq

-- The counters, `unclean`, and the records that stay.
pub record Scan : Type 0 where
  pub acct : ConnAccounting
  pub unclean : Bool
  pub reqs : List OriginReq

abbrev pub keeping : OriginReq → Scan → Scan
keeping r s = record s { reqs = r ∷ s.reqs }

unfoldable pub scan : ConnAccounting → Bool → List OriginReq → Option Scan
unfolding record_dropped
scan c unclean [] = some (record { acct = c; unclean = unclean; reqs = [] })
scan c unclean (connecting ∷ reqs) = do s ← scan c unclean reqs; some (keeping connecting s)
scan c unclean (assigned ∷ reqs) = do s ← scan c unclean reqs; some (keeping assigned s)
scan c unclean (ended released clean since ∷ reqs) = do
  c' ← record_dropped c released
  s ← scan c' (unclean || not clean) reqs
  some (if released then s else keeping (ended released clean since) s)

-- Part (a) of `settle`.
unfoldable pub settle_records : ConnAccounting → List OriginReq → Option Scan
unfolding scan
settle_records c reqs = scan (record c { ended_unreleased = 0 }) false reqs

abbrev pub latest : ℕ → Option ℕ → Option ℕ
latest t none = some t
latest t (some u) = some (max t u)

-- `filter_map(OriginReq::ended_since).max()`.
unfoldable pub newest : List OriginReq → Option ℕ
newest [] = none
newest (connecting ∷ reqs) = newest reqs
newest (assigned ∷ reqs) = newest reqs
newest (ended released clean since ∷ reqs) = latest since (newest reqs)
